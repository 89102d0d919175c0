-- ===== src/Status/Messages.antt =====
-- What the checks accept, read as messages: a request or a response is one packet, or a first
-- packet, any number of middle ones and a last one.
use iip.Prelude.{
  ℕ, zero, suc, ◌≡◌, ◌≢◌, ◌⊎◌, inl, inr, refl, ap, Bool, true, false, List, [], ◌∷◌, ◌++◌, Option,
  none, some, arith, replicate, All, append-nil, ◌∙◌,
}
use iip.Consts.{status_8}
use iip.Status.{no_status, check_client_packet_status, check_server_packet_status}
use iip.Status.Checker.{
  Check, Checker, IsChecker, IsBetween, IsWithin, client_checker, server_checker,
  client_checker-IsChecker, server_checker-IsChecker,
}

-- The check of each status in turn against the one before, as the read loops make it.
unfoldable pub follows : Check → ℕ → List ℕ → Bool
follows check prev [] = true
follows check prev (s ∷ ss) =
    let rest = follows check s ss in elim (check prev s) [ none ↦ rest | some e ↦ false ]

pub data Message : Type 0 where
  whole : Message
  chunked : ℕ → Message

-- The statuses of whole messages, and of the message that is still under way, if there is one.
module _ (c : Checker) where
  abbrev pub statuses : Message → List ℕ → List ℕ
  statuses whole rest = c.whole ∷ rest
  statuses (chunked k) rest = c.first ∷ (replicate k c.middle ++ (c.last ∷ rest))

  abbrev pub under_way : Option ℕ → List ℕ
  under_way none = []
  under_way (some k) = c.first ∷ replicate k c.middle

  abbrev pub spell : List Message → Option ℕ → List ℕ
  spell [] part = under_way part
  spell (m ∷ ms) part = statuses m (spell ms part)

module _ (c : Checker) (l : IsChecker c) where
  abbrev AreMessages : List ℕ → Type 0
  AreMessages ss = (ms : List Message) × (part : Option ℕ) × (ss ≡ spell c ms part)

  -- What may stand within a message.
  abbrev AreChunks : List ℕ → Type 0
  AreChunks ss =
      (k : ℕ) × ((ss ≡ replicate k c.middle)
        ⊎ ((ms : List Message) × (part : Option ℕ) × (ss
              ≡ replicate k c.middle ++ (c.last ∷ spell c ms part))))

  more_chunks : (ss : List ℕ) → AreChunks ss → AreChunks (c.middle ∷ ss)
  more_chunks ss (k, inl e) = (suc k, inl (ap (λ t. c.middle ∷ t) e))
  more_chunks ss (k, inr (ms, part, e)) = (suc k, inr (ms, part, ap (λ t. c.middle ∷ t) e))

  last_chunk : (ss : List ℕ) → AreMessages ss → AreChunks (c.last ∷ ss)
  last_chunk ss (ms, part, e) = (0, inr (ms, part, ap (λ t. c.last ∷ t) e))

  whole_message : (ss : List ℕ) → AreMessages ss → AreMessages (c.whole ∷ ss)
  whole_message ss (ms, part, e) = (whole ∷ ms, part, ap (λ t. c.whole ∷ t) e)

  first_chunk : (ss : List ℕ) → AreChunks ss → AreMessages (c.first ∷ ss)
  first_chunk ss (k, inl e) = ([], some k, ap (λ t. c.first ∷ t) e)
  first_chunk ss (k, inr (ms, part, e)) = (chunked k ∷ ms, part, ap (λ t. c.first ∷ t) e)

  follows_head :
      (prev s : ℕ) (ss : List ℕ)
      → follows c.check prev (s ∷ ss) ≡ true
      → (c.check prev s ≡ none) × (follows c.check s ss ≡ true)
  unfolding follows
  follows_head prev s ss h = ground arith

  mutual
    between :
        (ss : List ℕ) (prev : ℕ)
        → IsBetween c prev
        → All (λ s. s ≢ status_8) ss
        → follows c.check prev ss ≡ true
        → AreMessages ss
    between [] prev b n h = ([], none, refl)
    between (s ∷ ss) prev b n h =
        let (now, later) = follows_head prev s ss h in
        elim (l.ends prev s b n.0 now) [
          | inl e ↦ rw e (whole_message ss (between ss s (inr (inl e)) n.1 later))
          | inr e ↦ rw e (first_chunk ss (within ss s (inl e) n.1 later))
        ]

    within :
        (ss : List ℕ) (prev : ℕ)
        → IsWithin c prev
        → All (λ s. s ≢ status_8) ss
        → follows c.check prev ss ≡ true
        → AreChunks ss
    within [] prev b n h = (0, inl refl)
    within (s ∷ ss) prev b n h =
        let (now, later) = follows_head prev s ss h in
        elim (l.goes_on prev s b n.0 now) [
          | inl e ↦ rw e (more_chunks ss (within ss s (inr e) n.1 later))
          | inr e ↦ rw e (last_chunk ss (between ss s (inr (inr e)) n.1 later))
        ]

  pub follows_messages :
      (ss : List ℕ)
      → All (λ s. s ≢ status_8) ss
      → follows c.check no_status ss ≡ true
      → (ms : List Message) × (part : Option ℕ) × (ss ≡ spell c ms part)
  follows_messages ss n h = between ss no_status (inl refl) n h

  follows_cons :
      (prev s : ℕ) (ss : List ℕ)
      → c.check prev s ≡ none
      → follows c.check prev (s ∷ ss) ≡ follows c.check s ss
  unfolding follows
  follows_cons prev s ss e = rw (e, follows)

  chunks-follow :
      (k prev : ℕ) (ss : List ℕ)
      → IsWithin c prev
      → ((p : ℕ) → IsWithin c p → follows c.check p ss ≡ true)
      → follows c.check prev (replicate k c.middle ++ ss) ≡ true
  chunks-follow zero prev ss w h = h prev w
  chunks-follow (suc k) prev ss w h =
      follows_cons prev c.middle _ (l.may_go_on prev w).0 ∙ chunks-follow k c.middle ss (inr refl) h

  pub messages-follow :
      (ms : List Message) (part : Option ℕ) (prev : ℕ)
      → IsBetween c prev
      → follows c.check prev (spell c ms part) ≡ true
  unfolding follows
  messages-follow [] none prev b = refl
  messages-follow [] (some k) prev b =
      follows_cons prev c.first _ (l.may_start prev b).1
      ∙ rw append-nil at (chunks-follow k c.first [] (inl refl) (λ p w. refl))
  messages-follow (whole ∷ ms) part prev b =
      follows_cons prev c.whole _ (l.may_start prev b).0
      ∙ messages-follow ms part c.whole (inr (inl refl))
  messages-follow (chunked k ∷ ms) part prev b =
      follows_cons prev c.first _ (l.may_start prev b).1
      ∙ chunks-follow k c.first _ (inl refl) (λ p w.
        follows_cons p c.last _ (l.may_go_on p w).1
        ∙ messages-follow ms part c.last (inr (inr refl)))

-- A sequence of request statuses, none of which closes the connection, passes the checks of
-- CheckClientPacketStatus from a fresh channel only if it spells whole requests, followed by at
-- most one request that is not complete yet.
pub client_follows_messages :
    (ss : List ℕ)
    → All (λ s. s ≢ status_8) ss
    → follows check_client_packet_status no_status ss ≡ true
    → (ms : List Message) × (part : Option ℕ) × (ss ≡ spell client_checker ms part)
client_follows_messages = follows_messages client_checker client_checker-IsChecker

-- The same of response statuses and CheckServerPacketStatus: only whole responses pass, followed by
-- at most one response that is not complete yet.
pub server_follows_messages :
    (ss : List ℕ)
    → All (λ s. s ≢ status_8) ss
    → follows check_server_packet_status no_status ss ≡ true
    → (ms : List Message) × (part : Option ℕ) × (ss ≡ spell server_checker ms part)
server_follows_messages = follows_messages server_checker server_checker-IsChecker

-- Whatever whole messages a peer sends on a fresh channel, and a message under way behind them,
-- passes every check: requests at a server, and responses at a client.
pub messages_follow_both :
    (ms : List Message) (part : Option ℕ)
    → (follows check_client_packet_status no_status (spell client_checker ms part) ≡ true)
      × (follows check_server_packet_status no_status (spell server_checker ms part) ≡ true)
messages_follow_both ms part = (
  messages-follow client_checker client_checker-IsChecker ms part no_status (inl refl),
  messages-follow server_checker server_checker-IsChecker ms part no_status (inl refl),
)
