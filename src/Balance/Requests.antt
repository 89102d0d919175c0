-- ===== src/Balance/Requests.antt =====
-- What requests leave of a backend's record.
use iip.Prelude.{ℕ, zero, suc, ◌+◌, ◌/◌, ◌≡◌, refl, true, false, ltb, arith}
use iip.Balance.{
  EvaluatedClient, Reply, no_channel, replied, failed, begin_request, end_request, judge_request,
  do_request, begin_request2, check_health, end_request2, pending_requests_of,
}

-- Requests of DoRequest in a row, all with this reply.
abbrev pub requests : Reply → ℕ → ℕ → EvaluatedClient → EvaluatedClient
requests reply now zero c = c
requests reply now (suc n) c = do_request reply now (requests reply now n c)

requests-counts :
    (now n : ℕ) (c : EvaluatedClient)
    → (requests failed now n c).request_error_count ≡ c.request_error_count + n
unfolding do_request begin_request end_request judge_request
requests-counts now zero c = omega arith
requests-counts now (suc n) c = omega (arith, requests-counts now n c)

requests-pending :
    (now n : ℕ) (c : EvaluatedClient)
    → (requests failed now n c).pending_requests ≡ c.pending_requests
unfolding do_request begin_request end_request judge_request
requests-pending now zero c = refl
requests-pending now (suc n) c = omega (arith, requests-pending now n c)

-- DoRequest through a backend without errors so far, failing n + 1 times in a row on a channel that
-- exists, and then once more with a reply: the backend is paused after the failures exactly if
-- there are more than five, and is not paused, and without errors, after the reply. None of them
-- leaves a pending request behind.
pub failures_pause :
    (now n : ℕ) (c : EvaluatedClient)
    → c.request_error_count ≡ 0
    → ((requests failed now (suc n) c).paused ≡ ltb 5 (suc n))
      × ((requests failed now (suc n) c).pending_requests ≡ c.pending_requests)
      × ((do_request replied now (requests failed now (suc n) c)).paused ≡ false)
      × ((do_request replied now (requests failed now (suc n) c)).request_error_count ≡ 0)
      × ((do_request replied now (requests failed now (suc n) c)).pending_requests
          ≡ c.pending_requests)
unfolding do_request begin_request end_request judge_request
failures_pause now n c fresh =
    let count : (requests failed now n c).request_error_count ≡ n =
      omega (arith, requests-counts now n c, fresh) in
    (
      ground (arith, count),
      omega (arith, requests-pending now n c),
      refl,
      refl,
      omega (arith, requests-pending now n c),
    )

-- DoRequest2 counts each request twice while it is under way: PendingRequests, by which the
-- backends are chosen, is two more than before. After a reply that the health check accepts it is
-- what it was, with half of the failed checks.
pub request2_counted_twice :
    (reply : Reply) (now : ℕ) (c : EvaluatedClient)
    → (pending_requests_of (begin_request2 c) ≡ pending_requests_of c + 2)
      × (pending_requests_of (end_request2 true reply now (begin_request2 c))
          ≡ c.pending_requests + c.health_check_fail_count / 2)
      × (pending_requests_of (end_request2 false reply now (begin_request2 c))
          ≡ pending_requests_of c + 1)
unfolding pending_requests_of begin_request2 begin_request end_request2 end_request check_health
request2_counted_twice no_channel now c = (omega arith, omega arith, omega arith)
request2_counted_twice replied now c = (omega arith, omega arith, omega arith)
request2_counted_twice failed now c = (omega arith, omega arith, omega arith)
