-- ===== src/Follower/Candidates/Cached/Runs.antt =====
-- Runs of toolkit/mainchain-follower/db-sync-follower/src/candidates/cached.rs: requests while the
-- main chain grows.
use iagon_network_explorer_n.Prelude.{
  ℕ, ◌≤◌, ◌<◌, ◌≡◌, ◌==◌, arith, false, refl, sym, ◌>>=◌, ◌∙◌, Bytes, Result, ok, err, panic,
  Option, none, List, [], ◌∷◌,
}
use iagon_network_explorer_n.Domain.{CandidateRegistrations}
use iagon_network_explorer_n.Ariadne.{AriadneParameters}
use iagon_network_explorer_n.Follower.Candidates.Cached.{
  LruCache, AriadneParametersCacheKey, CandidatesCacheKey, View, new, get_ariadne_parameters,
  get_candidates,
}
use iagon_network_explorer_n.Follower.Candidates.Cached.Answers.{beside}
use iagon_network_explorer_n.Follower.Candidates.Cached.Requests.{
  raise, Cached, IsSettled, get_ariadne_parameters-inner, get_candidates-inner,
}

-- A request, or a new state of the main chain.
pub data Event (E : Type 0) : Type 0 where
  parameters_request :
      (epoch : ℕ) (d_parameter_policy permissioned_candidates_policy : Bytes) → Event E
  candidates_request : (epoch : ℕ) (committee_candidate_address : Bytes) → Event E
  advance : View E → Event E

pub data Answer : Type 0 where
  parameters_answer : AriadneParameters → Answer
  candidates_answer : List CandidateRegistrations → Answer

-- In the later state the source has the same answers for the epochs whose data is from epoch `b` or
-- before, which are stable.
pub record Evolves {E : Type 0} (b : ℕ) (v v' : View E) : Type 0 where
  pub epochs : (e : ℕ) → v.inner.data_epoch e ≡ v'.inner.data_epoch e
  pub parameters :
      (e d : ℕ) (p q : Bytes) (x : AriadneParameters)
      → v.inner.data_epoch e ≡ ok d
      → d ≤ b
      → v.inner.get_ariadne_parameters e p q ≡ ok x
      → v'.inner.get_ariadne_parameters e p q ≡ ok x
  pub candidates :
      (e d : ℕ) (a : Bytes) (x : List CandidateRegistrations)
      → v.inner.data_epoch e ≡ ok d
      → d ≤ b
      → v.inner.get_candidates e a ≡ ok x
      → v'.inner.get_candidates e a ≡ ok x

-- The source behind the caches, without them, up to the first error.
unfoldable pub run_inner : {E : Type 0} → View E → List (Event E) → Result E (List Answer)
run_inner v [] = ok []
run_inner v (parameters_request e p q ∷ events) = do
  x ← v.inner.get_ariadne_parameters e p q
  rest ← run_inner v events
  ok (parameters_answer x ∷ rest)
run_inner v (candidates_request e a ∷ events) = do
  x ← v.inner.get_candidates e a
  rest ← run_inner v events
  ok (candidates_answer x ∷ rest)
run_inner v (advance v' ∷ events) = run_inner v' events

-- A request is for an epoch with a data epoch, and finds the stable epoch; a stable epoch that has
-- been told, or `b`, stays stable.
abbrev pub Settles : {E : Type 0} → ℕ → View E → List (Event E) → Type 0
Settles b v [] = Unit
Settles b v (parameters_request e p q ∷ events) =
    (d : ℕ) × (o : Option ℕ) × (v.inner.data_epoch e ≡ ok d)
    × (v.latest_stable_epoch ≡ ok o)
    × Settles (raise b o) v events
Settles b v (candidates_request e a ∷ events) =
    (d : ℕ) × (o : Option ℕ) × (v.inner.data_epoch e ≡ ok d)
    × (v.latest_stable_epoch ≡ ok o)
    × Settles (raise b o) v events
Settles b v (advance v' ∷ events) = Evolves b v v' × Settles b v' events

bind_answers :
    {E V C X : Type 0} (c : C) (query : Result E V) (k : V × C → Result E X) (k' : V → Result E X)
    → ((v : V) → k (v, c) ≡ k' v)
    → ((beside c query) >>= k) ≡ (query >>= k')
bind_answers c (ok v) k k' same = same v
bind_answers c (err e) k k' same = refl
bind_answers c panic k k' same = refl

module _ (parameters_lru : LruCache AriadneParametersCacheKey AriadneParameters)
    (candidates_lru : LruCache CandidatesCacheKey (List CandidateRegistrations)) where
  module _ {E : Type 0} where
    -- The source with the caches, up to the first error.
    unfoldable pub run :
        View E → Cached parameters_lru candidates_lru → List (Event E) → Result E (List Answer)
    run v s [] = ok []
    run v s (parameters_request e p q ∷ events) = do
      (x, s') ← get_ariadne_parameters parameters_lru candidates_lru v s e p q
      rest ← run v s' events
      ok (parameters_answer x ∷ rest)
    run v s (candidates_request e a ∷ events) = do
      (x, s') ← get_candidates parameters_lru candidates_lru v s e a
      rest ← run v s' events
      ok (candidates_answer x ∷ rest)
    run v s (advance v' ∷ events) = run v' s events

    IsSettled-advance :
        (b : ℕ) (v v' : View E) (s : Cached parameters_lru candidates_lru)
        → Evolves b v v'
        → IsSettled parameters_lru candidates_lru v b s
        → IsSettled parameters_lru candidates_lru v' b s
    IsSettled-advance b v v' s evolves i = record {
      seen = i.seen;
      parameters = λ (e, p, q) x h.
          let (d, f, l, a) = i.parameters (e, p, q) x h in
          (d, sym (evolves.epochs e) ∙ f, l, evolves.parameters e d p q x f l a);
      candidates = λ (e, a) x h.
          let (d, f, l, c) = i.candidates (e, a) x h in
          (d, sym (evolves.epochs e) ∙ f, l, evolves.candidates e d a x f l c);
    }

    pub run-eq-run_inner :
        (b : ℕ) (v : View E) (s : Cached parameters_lru candidates_lru) (events : List (Event E))
        → Settles b v events
        → IsSettled parameters_lru candidates_lru v b s
        → run v s events ≡ run_inner v events
    unfolding run run_inner
    run-eq-run_inner b v s [] settles i = refl
    run-eq-run_inner b v s (parameters_request e p q ∷ events) (d, o, he, ho, settles) i =
        let (s', j, f) =
          get_ariadne_parameters-inner parameters_lru candidates_lru v b s e d o p q he ho i in
        let ih = run-eq-run_inner (raise b o) v s' events settles j in
        rw f (bind_answers s' (v.inner.get_ariadne_parameters e p q) _ _ (λ x. rw ih))
    run-eq-run_inner b v s (candidates_request e a ∷ events) (d, o, he, ho, settles) i =
        let (s', j, f) = get_candidates-inner parameters_lru candidates_lru v b s e d o a he ho i in
        let ih = run-eq-run_inner (raise b o) v s' events settles j in
        rw f (bind_answers s' (v.inner.get_candidates e a) _ _ (λ x. rw ih))
    run-eq-run_inner b v s (advance v' ∷ events) (evolves, settles) i =
        run-eq-run_inner b v' s events settles (IsSettled-advance b v v' s evolves i)

    new-eq-ok :
        (size : ℕ)
        → 0 < size
        → new parameters_lru candidates_lru {E = E} size
          ≡ ok (record {
            ariadne_parameters_cache = parameters_lru.empty size;
            candidates_cache = candidates_lru.empty size;
            highest_seen_stable_epoch = none;
          })
    unfolding new
    new-eq-ok size positive = let apart : (size == 0) ≡ false = ground arith in rw apart refl

    -- Starting with new caches, of a size above 0, every answer served, from a cache or not, is the
    -- answer the source behind the caches has at that time, up to the first error, while every request
    -- finds its data epoch and the stable epoch, and the data of stable epochs does not change as the
    -- main chain grows.
    pub run-new-eq-run_inner :
        (v : View E) (size : ℕ) (events : List (Event E))
        → 0 < size
        → Settles 0 v events
        → (new parameters_lru candidates_lru size >>= λ s. run v s events) ≡ run_inner v events
    run-new-eq-run_inner v size events positive settles = rw (new-eq-ok size positive) (
        run-eq-run_inner 0 v _ events settles record {
          seen = λ h e. cc;
          parameters = λ k x h. let none_held = sym (parameters_lru.peek_empty size k) ∙ h in cc;
          candidates = λ k x h. let none_held = sym (candidates_lru.peek_empty size k) ∙ h in cc;
        })
