-- ===== src/Login/Limit.antt =====
-- How many failed logins of an address go through.
use Prim.Native.Nat.{min}
use so_ho_link.Base.{
  ℕ, suc, ◌+◌, ◌≤◌, ◌≡◌, ◌≢◌, ◌∙◌, refl, sym, ap, subst, inl, inr, String, Bool, true, false,
  Option, none, some, List, [], ◌∷◌, ◌==◌, text_equality, ltb, if◌then◌else◌, arith, Bool-cases,
  eq_of_same, same_refl,
}
use so_ho_link.Base.Assoc.{lookup, insert, remove, lookup-insert, lookup-remove}
use so_ho_link.Login.{
  AttemptRecord, LoginRateLimiter, is_past, reset, judge_attempts, allow, next_record,
  record_failure, failing_login, succeeding_login,
}

pub data Login : Type 0 where
  failing succeeding : (ip : String) (now : ℕ) → Login

abbrev pub attempt : Login → LoginRateLimiter → Bool × LoginRateLimiter
attempt (failing ip now) rl = failing_login ip now rl
attempt (succeeding ip now) rl = succeeding_login ip now rl

abbrev pub fails_at : String → Login → Bool
fails_at ip (failing j now) = j == ip
fails_at ip (succeeding j now) = false

-- How many failing logins come from an address, and how many of these the limiter lets through.
unfoldable pub failures : String → List Login → ℕ
failures ip [] = 0
failures ip (l ∷ ls) = let rest = failures ip ls in if fails_at ip l then suc rest else rest

unfoldable pub let_through : String → List Login → LoginRateLimiter → ℕ
let_through ip [] rl = 0
let_through ip (l ∷ ls) rl =
    let (allowed, after) = attempt l rl in
    let rest = let_through ip ls after in
    if fails_at ip l then (if allowed then suc rest else rest) else rest

module _ (ip : String) (t₀ max window : ℕ) where
  -- A login of the address fails within the span; those of other addresses are free.
  abbrev pub Within : Login → Type 0
  Within (failing j now) = j ≡ ip → (t₀ ≤ now) × (now ≤ t₀ + window)
  Within (succeeding j now) = j ≢ ip

  abbrev pub AllWithin : List Login → Type 0
  AllWithin [] = Unit
  AllWithin (l ∷ ls) = Within l × AllWithin ls

  abbrev used : Option AttemptRecord → ℕ
  used none = 0
  used (some r) = r.count

  abbrev Fresh : Option AttemptRecord → Type 0
  Fresh none = Unit
  Fresh (some r) = (t₀ ≤ r.window_start) × (r.count ≤ max)

  other_insert :
      (j : String) (v : AttemptRecord) (m : List (String × AttemptRecord))
      → (j == ip) ≡ false
      → lookup ip (insert j v m) ≡ lookup ip m
  other_insert j v m h = lookup-insert j ip v m ∙ rw h refl

  other_remove :
      (j : String) (m : List (String × AttemptRecord))
      → (j == ip) ≡ false
      → lookup ip (remove j m) ≡ lookup ip m
  other_remove j m h = lookup-remove j ip m ∙ rw h refl

  abbrev limiter : List (String × AttemptRecord) → LoginRateLimiter
  limiter m = record { attempts = m; max_attempts = max; window = window }

  -- What the limiter knows of the address.
  record Tracks (rl : LoginRateLimiter) (o : Option AttemptRecord) : Type 0 where
    records : List (String × AttemptRecord)
    shape : rl ≡ limiter records
    known : lookup ip records ≡ o

  asked_other :
      (j : String) (now : ℕ) (rl : LoginRateLimiter) (o r : Option AttemptRecord)
      → (j == ip) ≡ false
      → Tracks rl o
      → Tracks (judge_attempts j now rl r).1 o
  asked_other j now rl o none h t = t
  asked_other j now rl o (some r) h t = elim (Bool-cases (is_past rl.window now r)) [
    | inl past ↦ rw past (record {
      records = remove j t.records;
      shape = ap (reset j) t.shape;
      known = other_remove j t.records h ∙ t.known;
    })
    | inr live ↦ rw live t
  ]

  failed_other :
      (b : Bool) (j : String) (now : ℕ) (rl : LoginRateLimiter) (o : Option AttemptRecord)
      → (j == ip) ≡ false
      → Tracks rl o
      → Tracks (if b then record_failure j now rl else rl) o
  unfolding record_failure
  failed_other false j now rl o h t = t
  failed_other true j now rl o h t = record {
    records = insert j (next_record window now (lookup j t.records)) t.records;
    shape = ap (record_failure j now) t.shape;
    known = other_insert j _ t.records h ∙ t.known;
  }

  succeeded_other :
      (b : Bool) (j : String) (rl : LoginRateLimiter) (o : Option AttemptRecord)
      → (j == ip) ≡ false
      → Tracks rl o
      → Tracks (if b then reset j rl else rl) o
  succeeded_other false j rl o h t = t
  succeeded_other true j rl o h t = record {
    records = remove j t.records;
    shape = ap (reset j) t.shape;
    known = other_remove j t.records h ∙ t.known;
  }

  failing_other :
      (j : String) (now : ℕ) (rl : LoginRateLimiter) (o : Option AttemptRecord)
      → (j == ip) ≡ false
      → Tracks rl o
      → Tracks (failing_login j now rl).1 o
  unfolding failing_login allow
  failing_other j now rl o h t =
      failed_other _ j now _ o h (asked_other j now rl o (lookup j rl.attempts) h t)

  succeeding_other :
      (j : String) (now : ℕ) (rl : LoginRateLimiter) (o : Option AttemptRecord)
      → (j == ip) ≡ false
      → Tracks rl o
      → Tracks (succeeding_login j now rl).1 o
  unfolding succeeding_login allow
  succeeding_other j now rl o h t =
      succeeded_other _ j _ o h (asked_other j now rl o (lookup j rl.attempts) h t)

  -- What a failing login of the address itself does.
  abbrev next_own : ℕ → Option AttemptRecord → Bool × AttemptRecord
  next_own now none = (true, record { count = 1; window_start = now })
  next_own now (some r) =
      if ltb r.count max then (true, record r { count = r.count + 1 }) else (false, r)

  live_at :
      (now : ℕ) (r : AttemptRecord)
      → t₀ ≤ r.window_start
      → now ≤ t₀ + window
      → is_past window now r ≡ false
  live_at now r a b = ground arith

  own_insert :
      (v : AttemptRecord) (m : List (String × AttemptRecord)) → lookup ip (insert ip v m) ≡ some v
  own_insert v m = lookup-insert ip ip v m ∙ rw (same_refl ip) refl

  abbrev Answers : ℕ → LoginRateLimiter → Option AttemptRecord → Type 0
  Answers now rl o =
      ((failing_login ip now rl).0 ≡ (next_own now o).0)
      × Tracks (failing_login ip now rl).1 (some (next_own now o).1)

  own_at :
      (now : ℕ) (m : List (String × AttemptRecord)) (o : Option AttemptRecord)
      → Fresh o
      → now ≤ t₀ + window
      → lookup ip m ≡ o
      → Answers now (limiter m) o
  unfolding failing_login allow record_failure
  own_at now m none f b k = rw k (
    refl,
    record {
      records = insert ip (next_record window now none) m;
      shape = rw k refl;
      known = own_insert _ m;
    },
  )
  own_at now m (some r) f b k = elim (Bool-cases (ltb r.count max)) [
    | inl room ↦
        rw (k, live_at now r f.0 b, room)
          (
            refl,
            record {
              records = insert ip (record r { count = r.count + 1 }) m;
              shape = rw (k, live_at now r f.0 b) refl;
              known = own_insert _ m;
            },
          )
    | inr full ↦
        rw (k, live_at now r f.0 b, full) (refl, record { records = m; shape = refl; known = k })
  ]

  failing_own :
      (now : ℕ) (rl : LoginRateLimiter) (o : Option AttemptRecord)
      → Fresh o
      → now ≤ t₀ + window
      → Tracks rl o
      → Answers now rl o
  failing_own now rl o f b t =
      subst (λ l. Answers now l o) (sym t.shape) (own_at now t.records o f b t.known)

  next_Fresh :
      (now : ℕ) (o : Option AttemptRecord)
      → 1 ≤ max
      → t₀ ≤ now
      → Fresh o
      → Fresh (some (next_own now o).1)
  next_Fresh now none one b f = (b, one)
  next_Fresh now (some r) one b f = elim (Bool-cases (ltb r.count max)) [
    | inl room ↦ rw room (f.0, ground arith)
    | inr full ↦ rw full f
  ]

  -- One more failure of the address, against what its record counts.
  counts_on :
      (now : ℕ) (o : Option AttemptRecord) (through rest : ℕ)
      → 1 ≤ max
      → Fresh o
      → through + (next_own now o).1.count ≡ min max (rest + (next_own now o).1.count)
      → (if (next_own now o).0 then suc through else through) + used o ≡ min max (suc rest + used o)
  counts_on now none through rest one f h = ground arith
  counts_on now (some r) through rest one f h = elim (Bool-cases (ltb r.count max)) [
    | inl room ↦ rw room (ground (arith, rw room at h))
    | inr full ↦ rw full (ground (arith, rw full at h))
  ]

  -- One failing login of the address, and those after it.
  own_step :
      (now : ℕ) (o : Option AttemptRecord) (allowed : Bool) (through rest : ℕ)
      → 1 ≤ max
      → Fresh o
      → allowed ≡ (next_own now o).0
      → through + (next_own now o).1.count ≡ min max (rest + (next_own now o).1.count)
      → (if allowed then suc through else through) + used o ≡ min max (suc rest + used o)
  own_step now o allowed through rest one f e h = rw e (counts_on now o through rest one f h)

  through_from :
      (ls : List Login) (rl : LoginRateLimiter) (o : Option AttemptRecord)
      → 1 ≤ max
      → Fresh o
      → Tracks rl o
      → AllWithin ls
      → let_through ip ls rl + used o ≡ min max (failures ip ls + used o)
  unfolding let_through failures
  through_from [] rl none one f t w = omega arith
  through_from [] rl (some r) one f t w = omega (arith, f.1)
  through_from (failing j now ∷ ls) rl o one f t w = elim (Bool-cases (j == ip)) [
    | inl same ↦
        let at_ip : ip ≡ j = sym (eq_of_same same) in
        let (from, to) = w.0 (eq_of_same same) in
        let (answer, after) = failing_own now rl o f to t in
        let rest =
          through_from ls (failing_login ip now rl).1 (some (next_own now o).1) one
            (next_Fresh now o one from f) after w.1 in
        rw same (
          subst
            (λ x.
              (if (failing_login x now rl).0
                  then suc (let_through ip ls (failing_login x now rl).1)
                  else let_through ip ls (failing_login x now rl).1)
                + used o
              ≡ min max (suc (failures ip ls) + used o))
            at_ip (own_step now o _ _ (failures ip ls) one f answer rest))
    | inr other ↦ rw other (through_from ls _ o one f (failing_other j now rl o other t) w.1)
  ]
  through_from (succeeding j now ∷ ls) rl o one f t w = elim (Bool-cases (j == ip)) [
    | inl same ↦ absurd (w.0 (eq_of_same same))
    | inr other ↦ through_from ls _ o one f (succeeding_other j now rl o other t) w.1
  ]

-- Where an address has no record, and each of its logins falls within a span of the window's length
-- and fails, exactly as many of them go through as the limit allows, or all if they are fewer; whatever
-- the logins of other addresses do between them.
pub let_through-exact :
    (ip : String) (t₀ : ℕ) (ls : List Login) (rl : LoginRateLimiter)
    → 1 ≤ rl.max_attempts
    → lookup ip rl.attempts ≡ none
    → AllWithin ip t₀ rl.max_attempts rl.window ls
    → let_through ip ls rl ≡ min rl.max_attempts (failures ip ls)
let_through-exact ip t₀ ls rl one start w =
    let counted =
      through_from ip t₀ rl.max_attempts rl.window ls rl none one tt
        (record { records = rl.attempts; shape = refl; known = start }) w in
    omega (arith, counted)
