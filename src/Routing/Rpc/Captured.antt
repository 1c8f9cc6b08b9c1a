-- ===== src/Routing/Rpc/Captured.antt =====
-- About the answers of `eth_call_capture`.
use cow_solver_skeleton.Prelude.{
  ℕ, suc, sym, false-ne-true, none-ne-some, some-injective, occurs, lower, ◌||◌, ==_iff, ap, refl,
  ◌∙◌, ◌<◌, ◌≤◌, ◌+◌, ◌==◌, String, Bool, true, false, ◌&&◌, ◌≡◌, subst, ◌⊎◌, inl, inr, Option,
  none, some, List, [], ◌∷◌, length, Error, Result, ok, >>=-eq-ok, ok-injective, err-ne-ok,
  Bool-cases, Option-cases, arith,
}
use cow_solver_skeleton.Encoder.Bytes.{Bytes}
use cow_solver_skeleton.Routing.Rpc.{
  Code, positive, negative, other, RpcError, Body, Response, Payload, payload, RpcClient, is_revert,
  is_caller_auth_revert, is_rate_limit, error_code, error_message, revert_reason, capture_error,
  read_result, on_body, on_response, attempts_from, retry_delays, is_set, no_attempts,
  eth_call_capture,
}

-- The error has the code 3, or a message that tells of a revert.
abbrev pub RevertError : RpcError → Type 0
RevertError e =
    (error_code e ≡ positive 3)
    ⊎ ((occurs "revert" (lower (error_message e)) ≡ true)
        ⊎ (occurs "reverted" (lower (error_message e)) ≡ true))

or-inv : (a b : Bool) → (a || b) ≡ true → (a ≡ true) ⊎ (b ≡ true)
or-inv true b h = inl refl
or-inv false b h = inr h

is_revert-RevertError :
    (e : RpcError) → is_revert (error_code e) (error_message e) ≡ true → RevertError e
unfolding is_revert
is_revert-RevertError e h = by_code (error_code e) refl h
  where
    by_code : (c : Code) → error_code e ≡ c → is_revert c (error_message e) ≡ true → RevertError e
    by_code (positive n) f r = elim (or-inv (n == 3) _ r) [
      | inl three ↦ inl (f ∙ ap positive ((==_iff n 3).0 three))
      | inr texts ↦ inr (or-inv _ _ texts)
    ]
    by_code (negative n) f r = inr (or-inv _ _ r)
    by_code (other s) f r = inr (or-inv _ _ r)

-- What the body says: a result, or a revert that is not about the caller.
pub data Says (read_string : Bytes → Result String) (b : Body) : Bool × String → Type 0 where
  succeeds : (r : String) → b.error ≡ none → b.result ≡ some r → Says read_string b (true, r)
  reverts :
      (e : RpcError)
      → b.error ≡ some e
      → RevertError e
      → occurs "not a solver" (lower (revert_reason read_string e)) ≡ false
      → Says read_string b (false, revert_reason read_string e)

-- The error has a rate-limit code.
abbrev pub LimitError : RpcError → Type 0
LimitError e = (error_code e ≡ positive 429) ⊎ (error_code e ≡ negative 32_005)

LimitError-is_rate_limit : (e : RpcError) → LimitError e → is_rate_limit (error_code e) ≡ true
unfolding is_rate_limit
LimitError-is_rate_limit e (inl k) = ap is_rate_limit k
LimitError-is_rate_limit e (inr k) = ap is_rate_limit k

-- No pause follows a body with a rate-limit code that is answered.
Unpaused : Option ℕ → Body → Type 0
Unpaused delay b = (e : RpcError) → b.error ≡ some e → LimitError e → is_set delay ≡ false

-- Only the last attempt has no pause behind it.
LastUnset : List (Option ℕ) → Type 0
LastUnset [] = Unit
LastUnset (delay ∷ delays) = (is_set delay ≡ false → length delays ≡ 0) × LastUnset delays

and_inv : (a b : Bool) → (a && b) ≡ false → a ≡ true → b ≡ false
and_inv a b h k = ground (arith, h, k)

-- One of at most `most` attempts answers so.
pub record Decided (client : RpcClient) (asked : Payload) (first most : ℕ) (answer : Bool × String)
    : Type 0 where
  pub attempt : ℕ
  pub response : Response
  pub body : Body
  pub from_first : first ≤ attempt
  pub in_time : attempt < first + most
  pub posted : client.post asked attempt ≡ ok response
  pub in_limit : (response.status_code == 429) ≡ false
  pub parsed : response.json ≡ ok body
  pub says : Says client.read_string body answer
  pub retried : (e : RpcError) → body.error ≡ some e → LimitError e → suc attempt ≡ first + most

module _ (client : RpcClient) (asked : Payload) (answer : Bool × String) where
  capture_error-Says :
      (b : Body) (e : RpcError)
      → b.error ≡ some e
      → capture_error client.read_string e ≡ ok answer
      → Says client.read_string b answer
  unfolding capture_error is_caller_auth_revert
  capture_error-Says b e found h = elim (Bool-cases (is_revert (error_code e) (error_message e))) [
    | inl r ↦ elim (Bool-cases (is_caller_auth_revert (revert_reason client.read_string e))) [
      | inl a ↦ absurd (err-ne-ok (rw (r, a, capture_error) at h))
      | inr a ↦
          subst (Says client.read_string b) (ok-injective (rw (r, a, capture_error) at h))
            (reverts e found (is_revert-RevertError e r) a)
    ]
    | inr r ↦ absurd (err-ne-ok (rw (r, capture_error) at h))
  ]

  module _ (delay : Option ℕ) (again : Error → Result (Bool × String)) where
    -- The attempts behind this one answer, or the body does.
    on_body-inv :
        (b : Body)
        → on_body (capture_error client.read_string) (λ r. ok (true, r)) delay again b ≡ ok answer
        → ((e : Error) × (again e ≡ ok answer))
          ⊎ (Says client.read_string b answer × Unpaused delay b)
    unfolding on_body read_result Unpaused
    on_body-inv b h = elim (Option-cases b.error) [
      | inl e ↦ elim (Option-cases b.result) [
        | inl f ↦ absurd (err-ne-ok (rw (e, f, on_body) at h))
        | inr (r, f) ↦ inr (
          subst (Says client.read_string b) (ok-injective (rw (e, f, on_body) at h))
              (succeeds r e f),
          λ x g l. absurd (none-ne-some (sym e ∙ g)),
        )
      ]
      | inr (x, e) ↦ elim (Bool-cases (is_rate_limit (error_code x) && is_set delay)) [
        | inl l ↦ inl (_, rw (e, l, on_body) at h)
        | inr l ↦ inr (
          capture_error-Says b x e (rw (e, l, on_body) at h),
          λ y g k.
              and_inv (is_rate_limit (error_code x)) (is_set delay) l
                (LimitError-is_rate_limit x (subst LimitError (some-injective (sym g ∙ e)) k)),
        )
      ]
    ]

    on_response-inv :
        (resp : Response)
        → on_response (capture_error client.read_string) (λ r. ok (true, r)) delay again resp
          ≡ ok answer
        → ((e : Error) × (again e ≡ ok answer))
          ⊎ ((b : Body) × ((resp.status_code == 429) ≡ false)
              × (resp.json ≡ ok b)
              × Says client.read_string b answer
              × Unpaused delay b)
    unfolding on_response
    on_response-inv resp h = elim (Bool-cases (resp.status_code == 429)) [
      | inl l ↦ inl (_, rw (l, on_response) at h)
      | inr l ↦
          let (b, parsed, rest) =
            >>=-eq-ok resp.json
              (on_body (capture_error client.read_string) (λ r. ok (true, r)) delay again)
              (rw (l, on_response) at h) in
          elim (on_body-inv b rest) [
            | inl later ↦ inl later
            | inr (says, free) ↦ inr (b, l, parsed, says, free)
          ]
    ]

  attempts_from-Decided :
      (delays : List (Option ℕ)) (n : ℕ) (last : Error)
      → attempts_from
          (capture_error client.read_string)
          (λ r. ok (true, r))
          (client.post asked)
          delays
          n
          last
        ≡ ok answer
      → LastUnset delays
      → Decided client asked n (length delays) answer
  unfolding attempts_from LastUnset Unpaused
  attempts_from-Decided [] n last h unset = absurd (err-ne-ok h)
  attempts_from-Decided (delay ∷ delays) n last h unset =
      let again =
        attempts_from (capture_error client.read_string) (λ r. ok (true, r)) (client.post asked)
          delays (suc n) in
      let (resp, posted, rest) =
        >>=-eq-ok (client.post asked n)
          (on_response (capture_error client.read_string) (λ r. ok (true, r)) delay again) h in
      elim (on_response-inv delay again resp rest) [
        | inl (e, later) ↦
            let d = attempts_from-Decided delays (suc n) e later unset.1 in
            let least = d.from_first in
            let greatest = d.in_time in
            record {
              attempt = d.attempt;
              response = d.response;
              body = d.body;
              from_first = omega (arith, least);
              in_time = omega (arith, greatest);
              posted = d.posted;
              in_limit = d.in_limit;
              parsed = d.parsed;
              says = d.says;
              retried = λ x g k. one_more d.attempt (length delays) (d.retried x g k);
            }
        | inr (b, free, parsed, says, unpaused) ↦ record {
          attempt = n;
          response = resp;
          body = b;
          from_first = omega arith;
          in_time = omega arith;
          posted = posted;
          in_limit = free;
          parsed = parsed;
          says = says;
          retried = λ x g k. at_last (length delays) (unset.0 (unpaused x g k));
        }
      ]
    where
      one_more : (a k : ℕ) → suc a ≡ suc n + k → suc a ≡ n + suc k
      one_more a k h = omega (arith, h)

      at_last : (k : ℕ) → k ≡ 0 → suc n ≡ n + suc k
      at_last k h = omega (arith, h)

retry_delays-LastUnset : LastUnset retry_delays
unfolding LastUnset
retry_delays-LastUnset = (
  λ h. absurd (false-ne-true (sym h)),
  (λ h. absurd (false-ne-true (sym h)), (λ h. absurd (false-ne-true (sym h)), (λ h. refl, tt))),
)

-- An answer of `eth_call_capture` is what the node answered to one of at most four requests for
-- the call, with another status than 429: True with its result, or False with the reason of an
-- error of code 3 or whose message tells of a revert, where the reason does not say that the
-- caller is not a solver. An error with a rate-limit code decides only as the answer to the fourth
-- request.
pub eth_call_capture-Decided :
    (client : RpcClient) (to call_data : String) (from_addr : Option String) (block : String)
    (answer : Bool × String)
    → eth_call_capture client to call_data from_addr block ≡ ok answer
    → Decided client (payload to call_data from_addr block) 1 4 answer
unfolding eth_call_capture
eth_call_capture-Decided client to call_data from_addr block answer h =
    attempts_from-Decided client (payload to call_data from_addr block) answer retry_delays 1
      no_attempts h retry_delays-LastUnset
