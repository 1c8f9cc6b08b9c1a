-- ===== src/Shadow/Feasibility/Framing.antt =====
-- About the signatures and the cached orders of src/shadow/feasibility.py.
use cow_solver_skeleton.Prelude.{
  String, true, ◌≡◌, ◌⊎◌, inl, inr, sym, subst, ◌++◌, take, length, text_mem, lower, arith, ok,
  ◌>>=◌, >>=-eq-ok, false-ne-true, take-append, take_whole,
}
use cow_solver_skeleton.Encoder.Bytes.{Bytes, same_bytes, same_bytes_sound, from_hex}
use cow_solver_skeleton.Routing.Multicall.{strip_0x}
use cow_solver_skeleton.Shadow.Feasibility.Orders.{
  RawOrder, or_else, framed_schemes, contract_schemes, owner_bytes, frame, sig_bytes,
}

-- A signature that GPv2Signing reads as one of the owner's.
pub record Framed (scheme : String) (owner signature : Bytes) : Type 0 where
  pub whole : length owner ≡ 20
  pub leads : take 20 signature ≡ owner
  pub bare : scheme ≡ "presign" → signature ≡ owner

not_presign :
    (scheme : String)
    → text_mem scheme contract_schemes ≡ true
    → scheme ≡ "presign"
    → (A : Type 0) → A
not_presign scheme h e A =
    absurd (false-ne-true (subst (λ s. text_mem s contract_schemes ≡ true) e h))

module _ (scheme : String) (owner raw signature : Bytes)
    (smart : text_mem scheme framed_schemes ≡ true)
    (framed : frame scheme owner raw ≡ ok signature) where
  frame-whole : length owner ≡ 20
  unfolding frame
  frame-whole = ground (arith, framed, smart)

  frame-cases :
      ((text_mem scheme contract_schemes ≡ true)
        × (same_bytes (take 20 raw) owner ≡ true)
        × (raw ≡ signature))
      ⊎ ((text_mem scheme contract_schemes ≡ true) × ((owner ++ raw) ≡ signature))
      ⊎ (owner ≡ signature)
  unfolding frame
  frame-cases = ground (arith, framed, smart, frame-whole)

  frame-Framed : Framed scheme owner signature
  frame-Framed = elim frame-cases [
    | inl (contract, same, e) ↦ record {
      whole = frame-whole;
      leads = subst (λ b. take 20 b ≡ owner) e (same_bytes_sound _ _ same);
      bare = λ p. not_presign scheme contract p _;
    }
    | inr (inl (contract, e)) ↦ record {
      whole = frame-whole;
      leads = subst (λ b. take 20 b ≡ owner) e (take-append 20 owner raw frame-whole);
      bare = λ p. not_presign scheme contract p _;
    }
    | inr (inr e) ↦ record {
      whole = frame-whole;
      leads = subst (λ b. take 20 b ≡ owner) e (take_whole 20 owner frame-whole);
      bare = λ p. sym e;
    }
  ]

-- A smart-wallet signature that `_sig_bytes` builds starts with the 20 bytes of the order's owner,
-- and is nothing else where the scheme is presign.
pub sig_bytes-Framed :
    (order : RawOrder) (signature : Bytes)
    → text_mem (lower (or_else order.signing_scheme "eip712")) framed_schemes ≡ true
    → sig_bytes order ≡ ok signature
    → (owner : Bytes) × (owner_bytes order ≡ ok owner)
      × Framed (lower (or_else order.signing_scheme "eip712")) owner signature
unfolding sig_bytes
sig_bytes-Framed order signature smart h =
    let scheme = lower (or_else order.signing_scheme "eip712") in
    let (raw, read, then_owner) =
      >>=-eq-ok (from_hex (strip_0x (or_else order.signature "0x")))
        (λ raw. owner_bytes order >>= λ owner. frame scheme owner raw) h in
    let (owner, known, framed) =
      >>=-eq-ok (owner_bytes order) (λ owner. frame scheme owner raw) then_owner in
    (owner, known, frame-Framed scheme owner raw signature smart framed)
