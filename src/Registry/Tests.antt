-- ===== src/Registry/Tests.antt =====
-- Pulls at concrete inputs.
use porpulsion.Prelude.{String, true, ◌≡◌, refl, some, List, [], ◌∷◌, Dict}
use porpulsion.Prelude.Text.{lstrip, split_once, starts_with, has_text, text}
use porpulsion.Prelude.Exec.{Result}
use porpulsion.Apps.{Base64}
use porpulsion.Registry.{
  Outgoing, Answer, Fetch, fetched, failing, Pulled, find_source_peer_for_host, forwarded_headers,
  handle_image_proxy_request, direct_answer, path_of, parts_of, target_url, registry_image_proxy,
}
use porpulsion.Registry.Pulling.{unless_failing, pull_is_from_peer, other_headers_stay_here}

abbrev plain : Base64
plain = record { encode = λ v. v; decode = λ v. some v; decode-encode = λ v. refl }

abbrev as_is : String → String
as_is s = s

-- the registry of the peer's network, which tells the address that it was asked for
abbrev private_registry : Outgoing → Fetch
private_registry r = fetched (record { status = 200; headers = []; body = r.url })

abbrev unreachable : Outgoing → Fetch
unreachable r = failing "no route"

abbrev by_peer : (peer method url : String) → Dict String → Result Answer
by_peer peer method url headers =
    handle_image_proxy_request as_is plain true private_registry method url headers

abbrev apps : List Pulled
apps = record { image = "agent/cr.lab/web:1"; source_peer = "alpha" } ∷ []

abbrev request_headers : Dict String
request_headers = ("Accept", "*/*") ∷ ("Authorization", "Basic abc") ∷ []

pull_is_from_peer_example :
    let (host, rest) = parts_of (path_of "cr.lab/web/manifests/1") in
    let asked : Outgoing = record {
      method = "GET";
      url = target_url host rest "";
      headers = forwarded_headers as_is request_headers;
      body = "";
    } in
    registry_image_proxy as_is plain by_peer unreachable apps "cr.lab/web/manifests/1" "" "GET"
      request_headers ""
    ≡ unless_failing as_is plain
        (private_registry asked)
        (direct_answer as_is plain (unreachable asked))
unfolding lstrip split_once find_source_peer_for_host has_text starts_with text
pull_is_from_peer_example =
    pull_is_from_peer as_is plain by_peer private_registry unreachable apps "cr.lab/web/manifests/1"
      "" "GET" request_headers "" "alpha" refl refl (λ m u hs. refl)

other_headers_stay_here_example :
    registry_image_proxy as_is plain by_peer unreachable apps "cr.lab/web/manifests/1" "" "GET"
      request_headers ""
    ≡ registry_image_proxy as_is plain by_peer unreachable apps "cr.lab/web/manifests/1" "" "GET"
        (("Accept", "*/*") ∷ [])
        ""
other_headers_stay_here_example =
    other_headers_stay_here as_is plain by_peer unreachable apps "cr.lab/web/manifests/1" "" "GET"
      "" request_headers (("Accept", "*/*") ∷ []) refl refl refl refl
