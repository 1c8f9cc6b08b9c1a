-- ===== src/Routing/V3Batched/Paths.antt =====
-- About `_encode_path_bytes` of src/routing/v3_batched.py and `pack_v3_path` of
-- src/encoder/v3_path.py.
use Prim.Native.String.{count}
use text.Mathlib.TextLemmas.{length-cons}
use cow_solver_skeleton.Prelude.{
  ℕ, String, ◌≡◌, refl, true, some, [], ◌∷◌, ◌++◌, arith, ◌==◌, Bool-cases, inl, inr, Result, ok,
  err, ◌>>=◌, err-ne-ok,
}
use cow_solver_skeleton.Encoder.Bytes.{Bytes, starts_0x, drop_text, rjust, pad_zeros, to_bytes_3}
use cow_solver_skeleton.Encoder.V3.Path.{pack_token, pack_rest, pack_v3_path}
use cow_solver_skeleton.Routing.V3Batched.{strip_0x, token_bytes, middle_bytes, encode_path_bytes}

count_rest : (s : String) → starts_0x s ≡ true → count s ≡ 42 → count (drop_text 2 s) ≡ 40
unfolding starts_0x drop_text
count_rest String.[] h n = cc
count_rest (String.◌∷◌ c String.[]) h n = cc
count_rest (String.◌∷◌ c (String.◌∷◌ d s)) h n =
    omega (arith, n, length-cons c (String.◌∷◌ d s), length-cons d s)

-- A token that the swap packs is quoted as the same 20 bytes.
token_bytes-pack : (t : String) (bs : Bytes) → pack_token t ≡ ok bs → token_bytes t ≡ ok bs
unfolding token_bytes strip_0x rjust pack_token pad_zeros
token_bytes-pack t bs h = elim (Bool-cases (starts_0x t)) [
  | inr bare ↦ absurd (err-ne-ok (rw bare at h))
  | inl prefixed ↦ elim (Bool-cases (count t == 42)) [
    | inr odd ↦ absurd (err-ne-ok (rw (prefixed, odd) at h))
    | inl long ↦
        rw (prefixed, count_rest t prefixed (ground (arith, long))) (rw (prefixed, long) at h)
  ]
]

append_nil : (xs : Bytes) → xs ++ [] ≡ xs
append_nil [] = refl
append_nil (x ∷ xs) = rw (append_nil xs)

append_assoc : (xs ys zs : Bytes) → (xs ++ ys) ++ zs ≡ xs ++ (ys ++ zs)
append_assoc [] ys zs = refl
append_assoc (x ∷ xs) ys zs = rw (append_assoc xs ys zs)

-- The packing of one token and of a path's tail, as the loop of `pack_v3_path` does it.
abbrev last_token : Result Bytes → Result Bytes
last_token r = r >>= λ here. ok [] >>= λ rest. ok (here ++ rest)

abbrev token_fee : Result Bytes → Result Bytes → Result Bytes → Result Bytes
token_fee r fee tail = r >>= λ here. fee >>= λ tier. tail >>= λ rest. ok (here ++ (tier ++ rest))

two_hops :
    (pa pt pm pu pb ta tm tb : Result Bytes) (bs : Bytes)
    → ((x : Bytes) → pa ≡ ok x → ta ≡ ok x)
    → ((x : Bytes) → pm ≡ ok x → tm ≡ ok x)
    → ((x : Bytes) → pb ≡ ok x → tb ≡ ok x)
    → token_fee pa pt (token_fee pm pu (last_token pb)) ≡ ok bs
    → (ta >>= λ first. pt >>= λ tier.
        (tm >>= λ token. pu >>= λ fee. ok (token ++ fee)) >>= λ middle.
        tb >>= λ last. ok (first ++ (tier ++ (middle ++ last))))
      ≡ ok bs
two_hops (ok a) (ok t) (ok m) (ok u) (ok b) ta tm tb bs f k g h =
    rw (f a refl, ◌>>=◌)
      (rw (k m refl, ◌>>=◌)
        (rw (g b refl, ◌>>=◌) (rw (append_assoc m u b) (rw (append_nil b) at h))))
two_hops (err e) pt pm pu pb ta tm tb bs f k g h = absurd (err-ne-ok h)
two_hops (ok a) (err e) pm pu pb ta tm tb bs f k g h = absurd (err-ne-ok h)
two_hops (ok a) (ok t) (err e) pu pb ta tm tb bs f k g h = absurd (err-ne-ok h)
two_hops (ok a) (ok t) (ok m) (err e) pb ta tm tb bs f k g h = absurd (err-ne-ok h)
two_hops (ok a) (ok t) (ok m) (ok u) (err e) ta tm tb bs f k g h = absurd (err-ne-ok h)

-- A two-hop path that the swap encoder packs is packed into the same bytes by the quoter.
pub encode_path_bytes-pack :
    (token_in mid token_out : String) (fee_in fee_out : ℕ) (bs : Bytes)
    → pack_v3_path (token_in ∷ mid ∷ token_out ∷ []) (fee_in ∷ fee_out ∷ []) ≡ ok bs
    → encode_path_bytes token_in fee_in (some mid) (some fee_out) token_out ≡ ok bs
unfolding pack_v3_path pack_rest encode_path_bytes middle_bytes
encode_path_bytes-pack a m b fee_in fee_out bs h =
    two_hops (pack_token a) (to_bytes_3 fee_in) (pack_token m) (to_bytes_3 fee_out) (pack_token b)
      (token_bytes a) (token_bytes m) (token_bytes b) bs (token_bytes-pack a) (token_bytes-pack m)
      (token_bytes-pack b) h
