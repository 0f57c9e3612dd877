-- ===== src/Registry.antt =====
-- The pulling of images through the agent: `registry_image_proxy` of
-- porpulsion/routes/image_proxy.py, and `handle_image_proxy_request` of
-- porpulsion/channel_handlers.py, which fetches for a peer. Bodies are text; the HTTP client is a
-- function of the request that is sent.
pub mod Pulling
mod Tests
use porpulsion.Prelude.{
  ℕ, String, Bool, true, false, not, ◌||◌, Option, none, some, or_default, List, [], ◌∷◌, Dict,
  lookup, insert, any, keep, find_first, ◌==◌, if◌then◌else◌,
}
use porpulsion.Prelude.Text.{is_empty, is_char, lstrip, split_once, starts_with, has_text, text}
use porpulsion.Prelude.Exec.{Result, ok, err}
use porpulsion.Apps.{Base64}

-- what is asked of a registry
pub record Outgoing : Type 0 where
  pub method : String
  pub url : String
  pub headers : Dict String
  pub body : String

pub record Answer : Type 0 where
  pub status : ℕ
  pub headers : Dict String
  pub body : String

-- what `urlopen` does: it returns, raises an HTTPError or another exception
pub data Fetch : Type 0 where
  fetched http_error : Answer → Fetch
  failing : String → Fetch

-- an ExecutingApp, as the search for its submitter reads it
pub record Pulled : Type 0 where
  pub image : String
  pub source_peer : String

abbrev pub or_no_one : Option Pulled → Option String
or_no_one none = none
or_no_one (some app) = if is_empty app.source_peer then none else some app.source_peer

-- the first app whose image is on the host decides
unfoldable pub find_source_peer_for_host : (upstream_host : String) → List Pulled → Option String
find_source_peer_for_host upstream_host apps = or_no_one (
    find_first
      (λ app.
        has_text app.image (text ("/" ∷ upstream_host ∷ "/" ∷ []))
        || starts_with app.image (text (upstream_host ∷ "/" ∷ [])))
      apps)

-- `_STRIP`
abbrev pub strip_names : List String
strip_names = "transfer-encoding" ∷ "connection" ∷ "content-length" ∷ []

abbrev pub passed_names : List String
passed_names = "Accept" ∷ "Content-Type" ∷ "Docker-Content-Digest" ∷ "Range" ∷ []

abbrev with_length : Option (String × String) → Dict String → Dict String
with_length none d = d
with_length (some (name, length)) d = insert "Content-Length" length d

abbrev pub set_length : Option String → Dict String → Dict String
set_length none d = d
set_length (some length) d = insert "Content-Length" length d

abbrev pub host_and_rest : String → Option (String × String) → String × String
host_and_rest path none = (path, "")
host_and_rest path (some parts) = parts

abbrev pub path_of : (subpath : String) → String
path_of subpath = lstrip (λ c. is_char c "/") subpath

abbrev pub parts_of : (path : String) → String × String
parts_of path = host_and_rest path (split_once "/" path)

abbrev pub target_url : (host rest query : String) → String
target_url host rest query =
    let target = text ("https://" ∷ host ∷ "/v2/" ∷ rest ∷ []) in
    if is_empty query then target else text (target ∷ "?" ∷ query ∷ [])

abbrev pub ping : Answer
ping = record {
  status = 200;
  headers =
      ("Content-Type", "application/json")
      ∷ ("Docker-Distribution-Api-Version", "registry/2.0")
      ∷ [];
  body = "{}";
}

-- `lower` is `str.lower`; the headers of a message are looked up in any case
module _ (lower : String → String) where
  abbrev pub find_header : (name : String) → Dict String → Option (String × String)
  find_header name headers = find_first (λ h. lower h.0 == lower name) headers

  abbrev pub value_of : Option (String × String) → String
  value_of none = ""
  value_of (some (name, value)) = value

  -- those of the names that the request has, with its values
  abbrev pub passed : List String → Dict String → Dict String
  passed [] headers = []
  passed (name ∷ names) headers =
      let rest = passed names headers in
      let value = value_of (find_header name headers) in
      if is_empty value then rest else (name, value) ∷ rest

  -- `fwd_headers`
  unfoldable pub forwarded_headers : Dict String → Dict String
  forwarded_headers headers = passed passed_names headers

  abbrev pub without_framing : Dict String → Dict String
  without_framing headers = keep (λ h. not (any (λ n. n == lower h.0) strip_names)) headers

  abbrev pub with_framing : Dict String → Dict String
  with_framing headers =
      with_length (find_header "Content-Length" headers) (without_framing headers)

  module _ (base64 : Base64) where
    -- the payload that goes back over the channel
    abbrev pub relay : Fetch → Result Answer
    relay (fetched a) = ok (record {
      status = a.status;
      headers = with_framing a.headers;
      body = base64.encode a.body;
    })
    relay (http_error a) = ok (record {
      status = a.status;
      headers = without_framing a.headers;
      body = base64.encode a.body;
    })
    relay (failing e) = err e

    unfoldable pub handle_image_proxy_request :
        (registry_pull_enabled : Bool) (urlopen : Outgoing → Fetch) (method url : String)
        → Dict String
        → Result Answer
    handle_image_proxy_request registry_pull_enabled urlopen method url headers =
        if not registry_pull_enabled
        then err "image proxy is not enabled on this agent"
        else if not (starts_with url "https://")
        then err "image-proxy: only https upstream URLs are supported"
        else relay (urlopen (record { method = method; url = url; headers = headers; body = "" }))

    abbrev decoded : Answer → Option String → Option Answer
    decoded a none = none
    decoded a (some body) = some (record {
      status = a.status;
      headers = set_length (lookup "Content-Length" a.headers) a.headers;
      body = body;
    })

    -- `none`: the channel or the peer failed
    unfoldable pub proxy_via_channel : Result Answer → Option Answer
    proxy_via_channel (err e) = none
    proxy_via_channel (ok a) = decoded a (base64.decode a.body)

    -- the reply to a request that the agent sends itself; of the body of the 502, its message
    abbrev pub direct_answer : Fetch → Answer
    direct_answer (fetched a) = record {
      status = a.status;
      headers = with_framing a.headers;
      body = a.body;
    }
    direct_answer (http_error a) = record {
      status = a.status;
      headers = without_framing a.headers;
      body = a.body;
    }
    direct_answer (failing e) = record {
      status = 502;
      headers = ("Content-Type", "application/json") ∷ [];
      body = e;
    }

    abbrev pub or_direct : (own : Answer) → Option Answer → Answer
    or_direct own none = own
    or_direct own (some a) = a

    abbrev pub ask_first :
        (call : (peer method url : String) → Dict String → Result Answer)
        → (own : Answer) (method url : String) → Dict String
        → (peer : Option String) → Answer
    ask_first call own method url headers none = own
    ask_first call own method url headers (some peer) =
        or_direct own (proxy_via_channel (call peer method url headers))

    -- `call` is the peer's handler over the channel
    unfoldable pub registry_image_proxy :
        (call : (peer method url : String) → Dict String → Result Answer)
        → (urlopen : Outgoing → Fetch) → List Pulled
        → (subpath query method : String) → Dict String
        → (body : String) → Answer
    registry_image_proxy call urlopen apps subpath query method headers body =
        let path = path_of subpath in
        let (host, rest) = parts_of path in
        let url = target_url host rest query in
        let sent = forwarded_headers headers in
        let own =
          direct_answer
            (urlopen (record { method = method; url = url; headers = sent; body = body })) in
        if is_empty path
        then ping
        else ask_first call own method url sent (find_source_peer_for_host host apps)
