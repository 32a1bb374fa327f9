-- ===== src/Token/Tests.antt =====
-- The round trip at a token of one job.
use so_ho_link.Base.{
  ℕ, ◌+◌, ◌-◌, ◌*◌, ◌≡◌, refl, ap, false, some, [], ◌∷◌, ◌++◌, map, ◌==◌, number_equality,
  text_equality, arith,
}
use so_ho_link.Store.{Bytes}
use so_ho_link.Token.{Crypto, codes, unix, claims, generate_job_token, verified, verify_job_token}
use so_ho_link.Token.RoundTrip.{Lacks, signed, verify_job_token-generate_job_token}

-- An encoding that shifts every byte past the ASCII characters.
abbrev shifting : Crypto
shifting = record {
  encode = map (λ x. x + 200);
  decode = λ b. some (map (λ x. x - 200) b);
  hmac = λ s b. s ++ b;
}

back : (x : ℕ) → x + 200 - 200 ≡ x
back x = omega arith

unshifted : (b : Bytes) → map (λ x. x - 200) (map (λ x. x + 200) b) ≡ b
unshifted [] = refl
unshifted (x ∷ xs) = rw (unshifted xs, back x) refl

decodes : (b : Bytes) → shifting.decode (shifting.encode b) ≡ some b
decodes b = ap (λ x. some x) (unshifted b)

no_dot : (x : ℕ) → (x + 200 == b'.') ≡ false
no_dot x = ground arith

lacks : (b : Bytes) → Lacks b'.' (shifting.encode b)
lacks [] = tt
lacks (x ∷ xs) = (no_dot x, lacks xs)

abbrev issued : ℕ
issued = 63_000_000_000 * 1_000_000_000

abbrev hour : ℕ
hour = 3600 * 1_000_000_000

abbrev token : Bytes
token = signed shifting (7 ∷ []) (claims "j1" "n1" (unix (issued + hour)))

made : generate_job_token shifting (7 ∷ []) issued hour "j1" "n1" ≡ some token
unfolding generate_job_token
made = refl

verify_job_token-generate_job_token_example :
    verify_job_token shifting (7 ∷ []) issued token ≡ verified (codes "j1") (codes "n1")
verify_job_token-generate_job_token_example =
    verify_job_token-generate_job_token shifting (7 ∷ []) issued hour issued "j1" "n1" token decodes
      lacks (refl, (refl, tt)) (refl, (refl, tt)) (omega arith) made
