-- ===== src/Follower/Candidates/Cached/Requests.antt =====
-- Single requests to toolkit/mainchain-follower/db-sync-follower/src/candidates/cached.rs, and what
-- they keep of the caches.
use Prim.Native.Nat.{max}
use iagon_network_explorer_n.Prelude.{
  ℕ, ◌≤◌, ◌≡◌, refl, arith, Bytes, Result, ok, err, panic, ◌>>=◌, Bool, Bool-cases, inl, inr, true,
  false, Option, none, some, some_inj, List,
}
use iagon_network_explorer_n.Domain.{CandidateRegistrations}
use iagon_network_explorer_n.Ariadne.{AriadneParameters}
use iagon_network_explorer_n.Follower.Candidates.Cached.{
  LruCache, AriadneParametersCacheKey, CandidatesCacheKey, View, CandidateDataSourceCached,
  has_seen, use_stable_epoch, can_use_caching_for_request, parameters_by_caching,
  get_ariadne_parameters, candidates_by_caching, get_candidates,
}
use iagon_network_explorer_n.Follower.Candidates.Cached.Answers.{Holds, beside, serve-Holds}

bind_beside :
    {E V C D : Type 0} (f : C → D) (c : C) (query : Result E V)
    → ◌≡◌ {A = Result E (V × D)} (beside c query >>= λ p. ok (p.0, f p.1)) (beside (f c) query)
bind_beside f c (ok v) = refl
bind_beside f c (err e) = refl
bind_beside f c panic = refl

bind_ok :
    {E V C : Type 0} (c : C) (query : Result E V)
    → ◌≡◌ {A = Result E (V × C)} (query >>= λ v. ok (v, c)) (beside c query)
bind_ok c (ok v) = refl
bind_ok c (err e) = refl
bind_ok c panic = refl

-- The highest stable epoch that a source may have been told.
abbrev pub raise : ℕ → Option ℕ → ℕ
raise b none = b
raise b (some n) = max b n

raise-le : (b : ℕ) (o : Option ℕ) → b ≤ raise b o
raise-le b none = omega arith
raise-le b (some n) = omega arith

module _ (parameters_lru : LruCache AriadneParametersCacheKey AriadneParameters)
    (candidates_lru : LruCache CandidatesCacheKey (List CandidateRegistrations)) where
  abbrev pub Cached : Type 0
  Cached = CandidateDataSourceCached parameters_lru candidates_lru

  seen-le :
      (o : Option ℕ) (b d : ℕ)
      → ((h : ℕ) → o ≡ some h → h ≤ b)
      → has_seen parameters_lru candidates_lru o d ≡ true
      → d ≤ b
  unfolding has_seen
  seen-le none b d seen h = cc
  seen-le (some n) b d seen h = let l = seen n refl in ground arith

  module _ {E : Type 0} where
    -- What is cached is the answer of the source for an epoch whose data is from epoch `b` or before.
    abbrev pub ParametersFixed : View E → ℕ → AriadneParametersCacheKey → AriadneParameters → Type 0
    ParametersFixed v b (e, p, q) x =
        (d : ℕ) × (v.inner.data_epoch e ≡ ok d)
        × (d ≤ b)
        × (v.inner.get_ariadne_parameters e p q ≡ ok x)

    abbrev pub CandidatesFixed :
        View E → ℕ → CandidatesCacheKey → List CandidateRegistrations → Type 0
    CandidatesFixed v b (e, a) x =
        (d : ℕ) × (v.inner.data_epoch e ≡ ok d) × (d ≤ b) × (v.inner.get_candidates e a ≡ ok x)

    pub record IsSettled (v : View E) (b : ℕ) (s : Cached) : Type 0 where
      pub seen : (h : ℕ) → s.highest_seen_stable_epoch ≡ some h → h ≤ b
      pub parameters : Holds parameters_lru (ParametersFixed v b) s.ariadne_parameters_cache
      pub candidates : Holds candidates_lru (CandidatesFixed v b) s.candidates_cache

    IsSettled-mono :
        (v : View E) (b b' : ℕ) (s : Cached) → b ≤ b' → IsSettled v b s → IsSettled v b' s
    IsSettled-mono v b b' s le i = record {
      seen = λ h e. let l = i.seen h e in omega arith;
      parameters =
          λ (e, p, q) x h. let (d, f, l, a) = i.parameters (e, p, q) x h in (d, f, omega arith, a);
      candidates =
          λ (e, a) x h. let (d, f, l, c) = i.candidates (e, a) x h in (d, f, omega arith, c);
    }

    use_stable_epoch-IsSettled :
        (v : View E) (b : ℕ) (s : Cached) (d : ℕ) (o : Option ℕ)
        → IsSettled v b s
        → IsSettled v (raise b o) (use_stable_epoch parameters_lru candidates_lru s d o).1
          × ((use_stable_epoch parameters_lru candidates_lru s d o).0 ≡ true → d ≤ raise b o)
    unfolding use_stable_epoch
    use_stable_epoch-IsSettled v b s d none i = (i, λ h. cc)
    use_stable_epoch-IsSettled v b s d (some n) i =
        let j = IsSettled-mono v b (max b n) s (omega arith) i in
        (
          record {
            seen = λ h e. let same = some_inj e in omega arith;
            parameters = j.parameters;
            candidates = j.candidates;
          },
          λ h. ground arith,
        )

    caching :
        (v : View E) (b : ℕ) (s : Cached) (e d : ℕ) (o : Option ℕ)
        → v.inner.data_epoch e ≡ ok d
        → v.latest_stable_epoch ≡ ok o
        → IsSettled v b s
        → (flag : Bool) × (s' : Cached) × (can_use_caching_for_request parameters_lru candidates_lru
              v s e
            ≡ ok (flag, s'))
          × IsSettled v (raise b o) s'
          × (flag ≡ true → d ≤ raise b o)
    unfolding can_use_caching_for_request
    caching v b s e d o he ho i =
        elim (Bool-cases (has_seen parameters_lru candidates_lru s.highest_seen_stable_epoch d)) [
          | inl y ↦ (
            true,
            s,
            rw (he, y),
            IsSettled-mono v b (raise b o) s (raise-le b o) i,
            λ _.
                let l = seen-le s.highest_seen_stable_epoch b d i.seen y in
                omega (arith, raise-le b o),
          )
          | inr n ↦
              let (j, bound) = use_stable_epoch-IsSettled v b s d o i in
              (_, _, rw (he, n) (rw ho), j, bound)
        ]

    parameters_request :
        (v : View E) (b : ℕ) (s : Cached) (flag : Bool) (e d : ℕ) (p q : Bytes)
        → v.inner.data_epoch e ≡ ok d
        → IsSettled v b s
        → (flag ≡ true → d ≤ b)
        → (s' : Cached) × IsSettled v b s'
          × (parameters_by_caching parameters_lru candidates_lru v e p q (flag, s)
              ≡ beside s' (v.inner.get_ariadne_parameters e p q))
    unfolding parameters_by_caching
    parameters_request v b s true e d p q he i bound =
        let (cache, held, f) =
          serve-Holds parameters_lru (ParametersFixed v b) s.ariadne_parameters_cache (e, p, q)
            (v.inner.get_ariadne_parameters e p q) i.parameters (λ x fixed. fixed.3)
            (λ x answer. (d, he, bound refl, answer)) in
        (
          record s { ariadne_parameters_cache = cache },
          record { seen = i.seen; parameters = held; candidates = i.candidates },
          rw f (bind_beside (λ c. record s { ariadne_parameters_cache = c }) cache _),
        )
    parameters_request v b s false e d p q he i bound = (s, i, bind_ok s _)

    candidates_request :
        (v : View E) (b : ℕ) (s : Cached) (flag : Bool) (e d : ℕ) (a : Bytes)
        → v.inner.data_epoch e ≡ ok d
        → IsSettled v b s
        → (flag ≡ true → d ≤ b)
        → (s' : Cached) × IsSettled v b s'
          × (candidates_by_caching parameters_lru candidates_lru v e a (flag, s)
              ≡ beside s' (v.inner.get_candidates e a))
    unfolding candidates_by_caching
    candidates_request v b s true e d a he i bound =
        let (cache, held, f) =
          serve-Holds candidates_lru (CandidatesFixed v b) s.candidates_cache (e, a)
            (v.inner.get_candidates e a) i.candidates (λ x fixed. fixed.3)
            (λ x answer. (d, he, bound refl, answer)) in
        (
          record s { candidates_cache = cache },
          record { seen = i.seen; parameters = i.parameters; candidates = held },
          rw f (bind_beside (λ c. record s { candidates_cache = c }) cache _),
        )
    candidates_request v b s false e d a he i bound = (s, i, bind_ok s _)

    -- With settled caches, and the stable epoch and the data epoch known, a request has the answer
    -- of the source behind the caches and leaves settled caches.
    pub get_ariadne_parameters-inner :
        (v : View E) (b : ℕ) (s : Cached) (e d : ℕ) (o : Option ℕ) (p q : Bytes)
        → v.inner.data_epoch e ≡ ok d
        → v.latest_stable_epoch ≡ ok o
        → IsSettled v b s
        → (s' : Cached) × IsSettled v (raise b o) s'
          × (get_ariadne_parameters parameters_lru candidates_lru v s e p q
              ≡ beside s' (v.inner.get_ariadne_parameters e p q))
    unfolding get_ariadne_parameters
    get_ariadne_parameters-inner v b s e d o p q he ho i =
        let (flag, s', c, j, bound) = caching v b s e d o he ho i in
        let (s'', k, f) = parameters_request v (raise b o) s' flag e d p q he j bound in
        (s'', k, rw c f)

    pub get_candidates-inner :
        (v : View E) (b : ℕ) (s : Cached) (e d : ℕ) (o : Option ℕ) (a : Bytes)
        → v.inner.data_epoch e ≡ ok d
        → v.latest_stable_epoch ≡ ok o
        → IsSettled v b s
        → (s' : Cached) × IsSettled v (raise b o) s'
          × (get_candidates parameters_lru candidates_lru v s e a
              ≡ beside s' (v.inner.get_candidates e a))
    unfolding get_candidates
    get_candidates-inner v b s e d o a he ho i =
        let (flag, s', c, j, bound) = caching v b s e d o he ho i in
        let (s'', k, f) = candidates_request v (raise b o) s' flag e d a he j bound in
        (s'', k, rw c f)
