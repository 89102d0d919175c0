-- ===== src/Handlers/Matching.antt =====
-- Which request a client gives a response to.
use iip.Prelude.{
  ℕ, ◌≡◌, ◌≢◌, refl, sym, ap, ◌∙◌, true, false, List, [], ◌∷◌, ◌++◌, append-nil, append_assoc,
  Option, none, some, ◌==◌, if_true, if_false, All, arith,
}
use mathlib.Core.Path.{subst}
use iip.Consts.{status_8}
use iip.Packet.{Packet}
use iip.Status.{is_server_status_completed}
use iip.Send.Chunks.{all_data}
use iip.Handlers.{
  merge, Receiving, finish_response, handle_response, handle_client_round, handle_client_loop,
}

abbrev pub data_so_far : Option Packet → List ℕ
data_so_far none = []
data_so_far (some part) = part.payload

pub merge-payload :
    (o : Option Packet) (p : Packet) → (merge o p).payload ≡ data_so_far o ++ p.payload
unfolding merge
merge-payload none p = refl
merge-payload (some part) p = refl

-- A packet of a response that is not the last, and the last one.
abbrev pub IsPart : Packet → Type 0
IsPart p = (is_server_status_completed p.status ≡ false) × (p.status ≢ status_8)

abbrev pub IsEnd : Packet → Type 0
IsEnd p = (is_server_status_completed p.status ≡ true) × (p.status ≢ status_8)

module _ {Request : Type 0} (addr : ℕ) where
  -- A loop that has completed this request with this response, and is ready for the next one.
  record IsMatched (before : Receiving Request) (req : Request) (reqs : List Request)
      (response : List ℕ) (s : Receiving Request) : Type 0 where
    pub live : s.stopped ≡ false
    pub complete : s.part ≡ none
    pub waiting : s.uncompleted ≡ reqs
    pub passed : s.completed ≡ before.completed ++ ((req, response) ∷ [])

  round-finish :
      (s : Receiving Request) (p : Packet) (req : Request) (reqs : List Request)
      → s.stopped ≡ false
      → p.status ≢ status_8
      → s.uncompleted ≡ req ∷ reqs
      → handle_client_round addr s p
        ≡ finish_response addr req p (merge s.part p) (record s {
          uncompleted = reqs;
          calls = (req, merge s.part p, is_server_status_completed p.status) ∷ s.calls;
        })
  unfolding handle_client_round
  round-finish s p req reqs live open_status waits =
      if_false s.stopped _ _ live
      ∙ if_false (p.status == status_8) _ _ (ground (arith, open_status))
      ∙ ap (handle_response addr p s) waits

  loop-IsMatched :
      (parts : List Packet) (last : Packet) (s : Receiving Request) (req : Request)
      (reqs : List Request)
      → All IsPart parts
      → IsEnd last
      → s.stopped ≡ false
      → s.uncompleted ≡ req ∷ reqs
      → IsMatched s req reqs
          (data_so_far s.part ++ all_data (parts ++ (last ∷ [])))
          (handle_client_loop addr s (parts ++ (last ∷ [])))
  unfolding handle_client_loop
  loop-IsMatched [] last s req reqs are_parts is_end live waits =
      let called = record s {
        uncompleted = reqs;
        calls = (req, merge s.part last, is_server_status_completed last.status) ∷ s.calls;
      } in
      let joined : (merge s.part last).payload ≡ data_so_far s.part ++ (last.payload ++ []) =
        merge-payload s.part last
        ∙ ap (λ t. data_so_far s.part ++ t) (sym (append-nil last.payload)) in
      subst (IsMatched s req reqs (data_so_far s.part ++ (last.payload ++ [])))
        (sym (
          round-finish s last req reqs live is_end.1 waits
          ∙ if_true (is_server_status_completed last.status) _ _ is_end.0))
        (record {
          live = live;
          complete = refl;
          waiting = refl;
          passed = ap (λ (t : List ℕ). s.completed ++ ((req, t) ∷ [])) joined;
        })
  loop-IsMatched (p ∷ parts) last s req reqs are_parts is_end live waits =
      let next = record s {
        part = some (merge s.part p);
        uncompleted = req ∷ reqs;
        calls = (req, merge s.part p, is_server_status_completed p.status) ∷ s.calls;
      } in
      let rest = loop-IsMatched parts last next req reqs are_parts.1 is_end live refl in
      let joined : (merge s.part p).payload ++ all_data (parts ++ (last ∷ []))
          ≡ data_so_far s.part ++ (p.payload ++ all_data (parts ++ (last ∷ []))) =
        ap (λ t. t ++ all_data (parts ++ (last ∷ []))) (merge-payload s.part p)
        ∙ append_assoc (data_so_far s.part) p.payload (all_data (parts ++ (last ∷ []))) in
      subst
        (λ t.
          IsMatched s req reqs
            (data_so_far s.part ++ (p.payload ++ all_data (parts ++ (last ∷ []))))
            (handle_client_loop addr t (parts ++ (last ∷ []))))
        (sym (
          round-finish s p req reqs live are_parts.0.1 waits
          ∙ if_false (is_server_status_completed p.status) _ _ are_parts.0.0))
        (record {
          live = rest.live;
          complete = rest.complete;
          waiting = rest.waiting;
          passed = rest.passed ∙ ap (λ (t : List ℕ). s.completed ++ ((req, t) ∷ [])) joined;
        })

-- Requests, each with the packets of the response that answers it.
abbrev pub Exchange : Type 0 → Type 0
Exchange Request = Request × List Packet × Packet

module _ {Request : Type 0} where
  abbrev pub AreExchanges : List (Exchange Request) → Type 0
  AreExchanges [] = Unit
  AreExchanges ((req, parts, last) ∷ es) = (All IsPart parts × IsEnd last) × AreExchanges es

  abbrev pub requests_of : List (Exchange Request) → List Request → List Request
  requests_of [] others = others
  requests_of ((req, parts, last) ∷ es) others = req ∷ requests_of es others

  abbrev pub packets_of : List (Exchange Request) → List Packet
  packets_of [] = []
  packets_of ((req, parts, last) ∷ es) = (parts ++ (last ∷ [])) ++ packets_of es

  abbrev pub answers_of : List (Exchange Request) → List (Request × List ℕ)
  answers_of [] = []
  answers_of ((req, parts, last) ∷ es) = (req, all_data (parts ++ (last ∷ []))) ∷ answers_of es

  loop-append :
      (addr : ℕ) (ps qs : List Packet) (s : Receiving Request)
      → handle_client_loop addr s (ps ++ qs)
        ≡ handle_client_loop addr (handle_client_loop addr s ps) qs
  unfolding handle_client_loop
  loop-append addr [] qs s = refl
  loop-append addr (p ∷ ps) qs s = loop-append addr ps qs (handle_client_round addr s p)

  -- handleClientLoop, when whole responses arrive, each in one packet or several, none of status 8,
  -- while at least as many requests wait: each response, put together from the data of its packets,
  -- completes the request that has waited longest, in order, and the other requests still wait.
  pub responses_in_order :
      (addr : ℕ) (es : List (Exchange Request)) (s : Receiving Request) (others : List Request)
      → AreExchanges es
      → s.stopped ≡ false
      → s.part ≡ none
      → s.uncompleted ≡ requests_of es others
      → ((handle_client_loop addr s (packets_of es)).completed ≡ s.completed ++ answers_of es)
        × ((handle_client_loop addr s (packets_of es)).uncompleted ≡ others)
        × ((handle_client_loop addr s (packets_of es)).stopped ≡ false)
  unfolding handle_client_loop
  responses_in_order addr [] s others are live fresh waits =
      (sym (append-nil s.completed), waits, live)
  responses_in_order addr ((req, parts, last) ∷ es) s others are live fresh waits =
      let one =
        loop-IsMatched addr parts last s req (requests_of es others) are.0.0 are.0.1 live waits in
      let after = handle_client_loop addr s (parts ++ (last ∷ [])) in
      let (passed, left, goes_on) =
        responses_in_order addr es after others are.1 one.live one.complete one.waiting in
      let response : data_so_far s.part ++ all_data (parts ++ (last ∷ []))
          ≡ all_data (parts ++ (last ∷ [])) =
        ap (λ (o : Option Packet). data_so_far o ++ all_data (parts ++ (last ∷ []))) fresh in
      rw (loop-append addr (parts ++ (last ∷ [])) (packets_of es) s) (
        passed
            ∙ ap (λ t. t ++ answers_of es)
                (one.passed ∙ ap (λ (t : List ℕ). s.completed ++ ((req, t) ∷ [])) response)
            ∙ append_assoc s.completed ((req, all_data (parts ++ (last ∷ []))) ∷ [])
                (answers_of es),
        left,
        goes_on,
      )
