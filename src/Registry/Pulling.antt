-- ===== src/Registry/Pulling.antt =====
-- What pulling an image through the agent comes to (porpulsion/routes/image_proxy.py with
-- porpulsion/channel_handlers.py).
use porpulsion.Prelude.{
  String, true, false, ◌≡◌, refl, sym, ap, Option, none, some, or_default, List, [], ◌∷◌, Dict,
  lookup, insert, All, ◌==◌, inl, inr, if◌then◌else◌, Bool-cases,
}
use porpulsion.Prelude.Text.{is_empty, starts_with, text}
use porpulsion.Prelude.Strip.{starts_with-left}
use porpulsion.Prelude.Exec.{Result}
use porpulsion.Apps.{Base64}
use porpulsion.Registry.{
  Outgoing, Answer, Fetch, fetched, http_error, failing, Pulled, find_source_peer_for_host,
  passed_names, find_header, value_of, passed, ping, forwarded_headers, set_length, relay,
  handle_image_proxy_request, proxy_via_channel, direct_answer, or_direct, ask_first, path_of,
  parts_of, target_url, registry_image_proxy,
}

-- setting an entry to what it is
insert-same : (k v : String) (d : Dict String) → lookup k d ≡ some v → insert k v d ≡ d
unfolding lookup insert
insert-same k v [] = λ h. cc
insert-same k v ((j, u) ∷ d) = elim (Bool-cases (j == k)) [
  | inl same ↦ rw same (λ h. ap (λ o. (j, or_default u o) ∷ d) (sym h))
  | inr other ↦ rw other (λ h. ap (λ r. (j, u) ∷ r) (insert-same k v d h))
]

set_length-same :
    (d : Dict String) (l : Option String) → lookup "Content-Length" d ≡ l → set_length l d ≡ d
set_length-same d none there = refl
set_length-same d (some length) there = insert-same "Content-Length" length d there

target_url-https :
    (host rest query : String) → starts_with (target_url host rest query) "https://" ≡ true
unfolding starts_with text
target_url-https host rest query =
    let bare = starts_with-left "https://" (text (host ∷ "/v2/" ∷ rest ∷ [])) "https://" refl in
    elim (Bool-cases (is_empty query)) [
      | inl none_asked ↦ rw none_asked bare
      | inr asked ↦ rw asked (
          starts_with-left (text ("https://" ∷ host ∷ "/v2/" ∷ rest ∷ [])) (text ("?" ∷ query ∷ []))
            "https://" bare)
    ]

-- the answer to what was fetched, or the own one where that failed
abbrev pub unless_failing :
    (lower : String → String) (base64 : Base64) → Fetch → (own : Answer) → Answer
unless_failing lower base64 (fetched a) own = direct_answer lower base64 (fetched a)
unless_failing lower base64 (http_error a) own = direct_answer lower base64 (http_error a)
unless_failing lower base64 (failing e) own = own

module _ (lower : String → String) (base64 : Base64) where
  through :
      (f : Fetch) (own : Answer)
      → or_direct lower base64 own (proxy_via_channel lower base64 (relay lower base64 f))
        ≡ unless_failing lower base64 f own
  unfolding proxy_via_channel
  through (fetched a) own =
      rw (base64.decode-encode a.body)
        (ap (λ hs. record a { headers = hs }) (set_length-same _ _ refl))
  through (http_error a) own =
      rw (base64.decode-encode a.body)
        (ap (λ hs. record a { headers = hs }) (set_length-same _ _ refl))
  through (failing e) own = refl

  ask-served :
      (call : (peer method url : String) → Dict String → Result Answer)
      (peer_open : Outgoing → Fetch) (own : Answer) (method url : String) (sent : Dict String)
      (peer : String)
      → starts_with url "https://" ≡ true
      → call peer method url sent
        ≡ handle_image_proxy_request lower base64 true peer_open method url sent
      → ask_first lower base64 call own method url sent (some peer)
        ≡ unless_failing lower base64
            (peer_open (record { method = method; url = url; headers = sent; body = "" }))
            own
  unfolding handle_image_proxy_request
  ask-served call peer_open own method url sent peer https served =
      rw (served, https) (through _ own)

  -- Where an app that pulls from a host was submitted by a peer that proxies images, a request for this
  -- host through the agent is answered as if it were sent, without its body, from the peer's network;
  -- where the peer does not reach the registry, as if the agent sent it.
  pub pull_is_from_peer :
      (call : (peer method url : String) → Dict String → Result Answer)
      (peer_open urlopen : Outgoing → Fetch) (apps : List Pulled) (subpath query method : String)
      (headers : Dict String) (body peer : String)
      → is_empty (path_of subpath) ≡ false
      → find_source_peer_for_host (parts_of (path_of subpath)).0 apps ≡ some peer
      → ((m u : String) (hs : Dict String)
          → call peer m u hs ≡ handle_image_proxy_request lower base64 true peer_open m u hs)
      → let (host, rest) = parts_of (path_of subpath) in
        let asked : Outgoing = record {
          method = method;
          url = target_url host rest query;
          headers = forwarded_headers lower headers;
          body = "";
        } in
        registry_image_proxy lower base64 call urlopen apps subpath query method headers body
        ≡ unless_failing lower base64
            (peer_open asked)
            (direct_answer lower base64 (urlopen (record asked { body = body })))
  unfolding registry_image_proxy
  pull_is_from_peer call peer_open urlopen apps subpath query method headers body peer given found
        served =
      let (host, rest) = parts_of (path_of subpath) in
      let url = target_url host rest query in
      let sent = forwarded_headers lower headers in
      rw (given, found)
        (ask-served call peer_open _ method url sent peer (target_url-https host rest query)
          (served method url sent))

  abbrev pub header : (name : String) → Dict String → String
  header name headers = value_of lower (find_header lower name headers)

  passed-same :
      (names : List String) (one two : Dict String)
      → All (λ name. header name one ≡ header name two) names
      → passed lower names one ≡ passed lower names two
  passed-same [] one two same = refl
  passed-same (name ∷ names) one two (value, same) = rw (value, passed-same names one two same) refl

  -- Whatever the peers and the registries answer: the reply to a request depends on no header but
  -- Accept, Content-Type, Docker-Content-Digest and Range.
  pub other_headers_stay_here :
      (call : (peer method url : String) → Dict String → Result Answer) (urlopen : Outgoing → Fetch)
      (apps : List Pulled) (subpath query method body : String) (one two : Dict String)
      → header "Accept" one ≡ header "Accept" two
      → header "Content-Type" one ≡ header "Content-Type" two
      → header "Docker-Content-Digest" one ≡ header "Docker-Content-Digest" two
      → header "Range" one ≡ header "Range" two
      → registry_image_proxy lower base64 call urlopen apps subpath query method one body
        ≡ registry_image_proxy lower base64 call urlopen apps subpath query method two body
  unfolding registry_image_proxy forwarded_headers
  other_headers_stay_here call urlopen apps subpath query method body one two accept type digest
        range =
      ap
        (λ sent.
          let (host, rest) = parts_of (path_of subpath) in
          let url = target_url host rest query in
          let own =
            direct_answer lower base64
              (urlopen (record { method = method; url = url; headers = sent; body = body })) in
          if is_empty (path_of subpath)
          then ping
          else ask_first lower base64 call own method url sent
              (find_source_peer_for_host host apps))
        (passed-same passed_names one two (accept, (type, (digest, (range, tt)))))
