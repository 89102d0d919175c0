-- ===== src/Handlers/Assembly.antt =====
-- What a server's handler is called with when a request arrives in several packets.
use iip.Prelude.{
  ℕ, ◌≡◌, ◌≢◌, refl, sym, ap, ◌∙◌, Bool, true, false, List, [], ◌∷◌, ◌++◌, append-nil, append_assoc,
  Option, none, some, ◌==◌, if_true, if_false, All, arith,
}
use mathlib.Core.Path.{subst}
use iip.Consts.{status_8}
use iip.Packet.{Packet}
use iip.Status.{is_client_status_completed}
use iip.Send.Chunks.{all_data}
use iip.Handlers.{
  Answer, HandleError, merge, response_data, Serving, respond, finish_request, handle_server_round,
  handle_server_loop,
}
use iip.Handlers.Matching.{data_so_far, merge-payload}

merge-status : (o : Option Packet) (p : Packet) → (merge o p).status ≡ p.status
unfolding merge
merge-status none p = refl
merge-status (some part) p = refl

-- A packet of a request that is not the last, and the last one.
abbrev pub IsRequestPart : Packet → Type 0
IsRequestPart p = (is_client_status_completed p.status ≡ false) × (p.status ≢ status_8)

abbrev pub IsRequestEnd : Packet → Type 0
IsRequestEnd p = (is_client_status_completed p.status ≡ true) × (p.status ≢ status_8)

module _ (handle : Packet → Bool → Answer) (error_data : HandleError → List ℕ) (addr : ℕ) where
  -- A loop whose last call of the handler was with a whole request that holds this data.
  pub record IsAssembled (request : List ℕ) (s : Serving) : Type 0 where
    pub live : s.stopped ≡ false
    pub forgotten : s.part ≡ none
    pub call : Packet
    pub earlier : List (Packet × Bool)
    pub calls : s.calls ≡ (call, true) ∷ earlier
    pub whole : call.payload ≡ request

  abbrev called : Serving → Packet → Serving
  called s p = record s {
    calls = (merge s.part p, is_client_status_completed (merge s.part p).status) ∷ s.calls;
  }

  round-finish_request :
      (s : Serving) (p : Packet)
      → s.stopped ≡ false
      → p.status ≢ status_8
      → handle_server_round handle error_data addr s p
        ≡ finish_request addr p (merge s.part p) (
            respond addr p
              (response_data error_data
                (is_client_status_completed (merge s.part p).status)
                (handle (merge s.part p) (is_client_status_completed (merge s.part p).status)))
              (called s p))
  unfolding handle_server_round
  round-finish_request s p live open_status =
      if_false s.stopped _ _ live
      ∙ if_false (p.status == status_8) _ _ (ground (arith, open_status))

  -- A response changes neither the calls nor whether the loop goes on.
  respond-calls :
      (p : Packet) (o : Option (List ℕ)) (s : Serving)
      → ((respond addr p o s).calls ≡ s.calls) × ((respond addr p o s).stopped ≡ s.stopped)
  respond-calls p none s = (refl, refl)
  respond-calls p (some bytes) s = (refl, refl)

  loop-IsAssembled :
      (parts : List Packet) (last : Packet) (s : Serving)
      → All IsRequestPart parts
      → IsRequestEnd last
      → s.stopped ≡ false
      → IsAssembled
          (data_so_far s.part ++ all_data (parts ++ (last ∷ [])))
          (handle_server_loop handle error_data addr s (parts ++ (last ∷ [])))
  unfolding handle_server_loop
  loop-IsAssembled [] last s are_parts is_end live =
      let merged = merge s.part last in
      let completed : is_client_status_completed merged.status ≡ true =
        ap is_client_status_completed (merge-status s.part last) ∙ is_end.0 in
      let joined : merged.payload ≡ data_so_far s.part ++ (last.payload ++ []) =
        merge-payload s.part last
        ∙ ap (λ t. data_so_far s.part ++ t) (sym (append-nil last.payload)) in
      let answered =
        respond addr last
          (response_data error_data (is_client_status_completed merged.status)
            (handle merged (is_client_status_completed merged.status)))
          (called s last) in
      let (same_calls, same_mark) =
        respond-calls last
          (response_data error_data (is_client_status_completed merged.status)
            (handle merged (is_client_status_completed merged.status)))
          (called s last) in
      subst (IsAssembled (data_so_far s.part ++ (last.payload ++ [])))
        (sym (
          round-finish_request s last live is_end.1
          ∙ if_true (is_client_status_completed last.status) _ _ is_end.0))
        (record {
          live = same_mark ∙ live;
          forgotten = refl;
          call = merged;
          earlier = s.calls;
          calls = same_calls ∙ ap (λ (b : Bool). (merged, b) ∷ s.calls) completed;
          whole = joined;
        })
  loop-IsAssembled (p ∷ parts) last s are_parts is_end live =
      let merged = merge s.part p in
      let o =
        response_data error_data (is_client_status_completed merged.status)
          (handle merged (is_client_status_completed merged.status)) in
      let next = record (respond addr p o (called s p)) { part = some merged } in
      let (same_calls, same_mark) = respond-calls p o (called s p) in
      let rest = loop-IsAssembled parts last next are_parts.1 is_end (same_mark ∙ live) in
      let joined : merged.payload ++ all_data (parts ++ (last ∷ []))
          ≡ data_so_far s.part ++ (p.payload ++ all_data (parts ++ (last ∷ []))) =
        ap (λ t. t ++ all_data (parts ++ (last ∷ []))) (merge-payload s.part p)
        ∙ append_assoc (data_so_far s.part) p.payload (all_data (parts ++ (last ∷ []))) in
      subst
        (λ t.
          IsAssembled (data_so_far s.part ++ (p.payload ++ all_data (parts ++ (last ∷ []))))
            (handle_server_loop handle error_data addr t (parts ++ (last ∷ []))))
        (sym (
          round-finish_request s p live are_parts.0.1
          ∙ if_false (is_client_status_completed p.status) _ _ are_parts.0.0))
        (record {
          live = rest.live;
          forgotten = rest.forgotten;
          call = rest.call;
          earlier = rest.earlier;
          calls = rest.calls;
          whole = rest.whole ∙ joined;
        })

-- handleServerLoop, when a request arrives in one packet or several, none of status 8, on a channel
-- with no request begun: whatever the handler returned before, its last call is with the request as
-- complete, its data put together of the packets' data in order; and the loop goes on with no
-- request begun.
pub request_put_together :
    (handle : Packet → Bool → Answer) (error_data : HandleError → List ℕ) (addr : ℕ)
    (parts : List Packet) (last : Packet) (s : Serving)
    → All IsRequestPart parts
    → IsRequestEnd last
    → s.stopped ≡ false
    → s.part ≡ none
    → IsAssembled handle error_data addr
        (all_data (parts ++ (last ∷ [])))
        (handle_server_loop handle error_data addr s (parts ++ (last ∷ [])))
request_put_together handle error_data addr parts last s are_parts is_end live fresh =
    subst
      (λ (o : Option Packet).
        IsAssembled handle error_data addr (data_so_far o ++ all_data (parts ++ (last ∷ [])))
          (handle_server_loop handle error_data addr s (parts ++ (last ∷ []))))
      fresh (loop-IsAssembled handle error_data addr parts last s are_parts is_end live)
