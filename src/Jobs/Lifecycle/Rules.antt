-- ===== src/Jobs/Lifecycle/Rules.antt =====
-- Evolution composes, and each statement on the jobs is a step of it.
use so_ho_link.Base.{
  ◌≡◌, refl, sym, ◌∙◌, subst, ap, String, Bool, true, false, Option, none, some, List, [], ◌∷◌,
  ◌==◌, text_equality, if◌then◌else◌,
}
use so_ho_link.Store.{Job, World, Status, pending}
use so_ho_link.Store.Sql.{find_job, update_where, update_jobs, with_jobs}
use so_ho_link.Store.Effects.{Moves, Course, Moves-update}
use so_ho_link.Jobs.Submit.{is_print}
use so_ho_link.Jobs.Lifecycle.{Mode, Edge, Way, Life, Kin, Evolves}

module _ (m : Mode) where
  pub Way-join : {p : Bool} {s t u : Status} → Way m p s t → Way m p t u → Way m p s u
  Way-join Way.here b = b
  Way-join (Way.then e a) b = Way.then e (Way-join a b)

  pub Life-refl : (j : Job) → Life m j j
  Life-refl j = record { id = refl; workload = refl; participant = refl; way = Way.here }

  pub Life-join : (j k l : Job) → Life m j k → Life m k l → Life m j l
  Life-join j k l a b = record {
    id = b.id ∙ a.id;
    workload = b.workload ∙ a.workload;
    participant = b.participant ∙ a.participant;
    way = Way-join a.way (subst (λ w. Way m (is_print w) k.status l.status) a.workload b.way);
  }

  -- One move, from the status that a guard has found.
  pub Life-move :
      (j k : Job) (s : Status)
      → k.id ≡ j.id
      → k.workload_type ≡ j.workload_type
      → k.participant_id ≡ j.participant_id
      → j.status ≡ s
      → Edge m (is_print j.workload_type) s k.status
      → Life m j k
  Life-move j k s i w p at edge = record {
    id = i;
    workload = w;
    participant = p;
    way =
        subst (λ t. Way m (is_print j.workload_type) t k.status) (sym at) (Way.then edge Way.here);
  }

  pub Kin-refl : (o : Option Job) → Kin m o o
  Kin-refl none = tt
  Kin-refl (some j) = Life-refl j

  pub Kin-join : (a b c : Option Job) → Kin m a b → Kin m b c → Kin m a c
  Kin-join none none c x y = y
  Kin-join none (some k) none x y = absurd y
  Kin-join none (some k) (some l) x y =
      subst (λ w. Way m (is_print w) pending l.status) (sym y.workload) (Way-join x y.way)
  Kin-join (some j) none c x y = absurd x
  Kin-join (some j) (some k) none x y = absurd y
  Kin-join (some j) (some k) (some l) x y = Life-join j k l x y

  pub evolves_course : Course (Evolves m)
  evolves_course = record {
    stay = λ w. record { at = λ id. Kin-refl (find_job id w.db.jobs) };
    join = λ u v w f g. record {
      at = λ id.
          Kin-join (find_job id u.db.jobs) (find_job id v.db.jobs) (find_job id w.db.jobs) (f.at id)
            (g.at id);
    };
    fault = λ w. record { at = λ id. Kin-refl (find_job id w.db.jobs) };
    restore = λ u v f. record { at = λ id. Kin-refl (find_job id u.db.jobs) };
  }

  Kin-if :
      (b c : Bool) (j k : Job) (o p : Option Job)
      → c ≡ b
      → (b ≡ true → Life m j k)
      → (b ≡ false → Kin m o p)
      → Kin m (if b then some j else o) (if c then some k else p)
  Kin-if true true j k o p e life rest = life refl
  Kin-if false false j k o p e life rest = rest refl
  Kin-if true false j k o p e life rest = cc
  Kin-if false true j k o p e life rest = cc

  Kin-cons :
      (j k : Job) (id : String) (js ks : List Job)
      → k.id ≡ j.id
      → ((j.id == id) ≡ true → Life m j k)
      → ((j.id == id) ≡ false → Kin m (find_job id js) (find_job id ks))
      → Kin m (find_job id (j ∷ js)) (find_job id (k ∷ ks))
  Kin-cons j k id js ks same =
      Kin-if (j.id == id) (k.id == id) j k (find_job id js) (find_job id ks)
        (ap (λ i. i == id) same)

  changed_id : (b : Bool) (j k : Job) → k.id ≡ j.id → (if b then k else j).id ≡ j.id
  changed_id true j k e = e
  changed_id false j k e = refl

  changed-Life : (b : Bool) (j k : Job) → (b ≡ true → Life m j k) → Life m j (if b then k else j)
  changed-Life true j k life = life refl
  changed-Life false j k life = Life-refl j

  Kin-update :
      (test : Job → Bool) (change : Job → Job) (id : String) (js : List Job)
      → ((j : Job) → (change j).id ≡ j.id)
      → ((j : Job) → find_job id js ≡ some j → test j ≡ true → Life m j (change j))
      → Kin m (find_job id js) (find_job id (update_where test change js))
  Kin-update test change id [] keeps lives = tt
  Kin-update test change id (j ∷ js) keeps lives =
      Kin-cons j (if test j then change j else j) id js (update_where test change js)
        (changed_id (test j) j (change j) (keeps j))
        (λ hit. changed-Life (test j) j (change j) (lives j (rw hit refl)))
        (λ other. Kin-update test change id js keeps (λ k found. lives k (rw other found)))

  pub Evolves-update :
      (test : Job → Bool) (change : Job → Job) (w : World)
      → ((j : Job) → (change j).id ≡ j.id)
      → ((id : String) (j : Job)
          → find_job id w.db.jobs ≡ some j
          → test j ≡ true
          → Life m j (change j))
      → Evolves m w (with_jobs (update_where test change w.db.jobs) w)
  Evolves-update test change w keeps lives = record {
    at = λ id. Kin-update test change id w.db.jobs keeps (lives id);
  }

  pub Moves-Evolves-update :
      (test : Job → Bool) (change : Job → Job)
      → ((j : Job) → (change j).id ≡ j.id)
      → ((j : Job) → test j ≡ true → Life m j (change j))
      → Moves (Evolves m) (update_jobs test change)
  Moves-Evolves-update test change keeps lives =
      Moves-update evolves_course test change
        (λ w. Evolves-update test change w keeps (λ id j found. lives j))
