-- ===== src/Follower/Candidates/Cached/Answers.antt =====
-- The answers of toolkit/mainchain-follower/db-sync-follower/src/candidates/cached.rs are those of
-- the source behind it.
use iagon_network_explorer_n.Prelude.{
  ◌≡◌, ◌⊎◌, refl, sym, subst, ◌∙◌, Result, ok, err, panic, ◌>>=◌, Option-cases, inl, inr, some,
}
use iagon_network_explorer_n.Follower.Candidates.Cached.{LruCache, serve}

-- What a query answers, beside a cache.
abbrev pub beside {ℓ} : {E V : Type 0} {C : Type ℓ} → C → Result E V → Result E (V × C)
beside c (ok v) = ok (v, c)
beside c (err e) = err e
beside c panic = panic

module _ {K V : Type 0} (lru : LruCache K V) (P : K → V → Type 0) where
  abbrev pub Holds : lru.Cache → Type 0
  Holds cache = (k : K) (v : V) → lru.peek cache k ≡ some v → P k v

  put-Holds :
      (cache : lru.Cache) (key : K) (v : V) → Holds cache → P key v → Holds (lru.put key v cache)
  put-Holds cache key v h p k w e = go k w (lru.put_holds key k v w cache e)
    where
      go : (k : K) (w : V) → ((k ≡ key) × (w ≡ v)) ⊎ (lru.peek cache k ≡ some w) → P k w
      go k w (inl (a, b)) = subst (λ z. P z w) (sym a) (subst (P key) (sym b) p)
      go k w (inr f) = h k w f

  abbrev put_answer : {E : Type 0} → lru.Cache → K → Result E V → Result E (V × lru.Cache)
  put_answer cache key query = query >>= λ v. ok (v, lru.put key v cache)

  missed :
      {E : Type 0} (cache : lru.Cache) (key : K) (query : Result E V)
      → Holds cache
      → ((v : V) → query ≡ ok v → P key v)
      → (cache' : lru.Cache) × Holds cache' × (put_answer cache key query ≡ beside cache' query)
  missed cache key (ok v) h q = (lru.put key v cache, put-Holds cache key v h (q v refl), refl)
  missed cache key (err e) h q = (cache, h, refl)
  missed cache key panic h q = (cache, h, refl)

  -- Where the cache holds only what the query answers, it is served as by the query.
  pub serve-Holds :
      {E : Type 0} (cache : lru.Cache) (key : K) (query : Result E V)
      → Holds cache
      → ((v : V) → P key v → query ≡ ok v)
      → ((v : V) → query ≡ ok v → P key v)
      → (cache' : lru.Cache) × Holds cache' × (serve lru cache key query ≡ beside cache' query)
  unfolding serve
  serve-Holds cache key query h to from =
      let kept : Holds (lru.get key cache).1 = λ k v e. h k v (lru.get_keeps key k cache v e) in
      elim (Option-cases (lru.get key cache).0) [
        | inl n ↦
            let (cache', held, e) = missed (lru.get key cache).1 key query kept from in
            (cache', held, rw (n, serve) e)
        | inr (v, f) ↦
            let answer : query ≡ ok v = to v (h key v (sym (lru.get_reads key cache) ∙ f)) in
            ((lru.get key cache).1, kept, rw (f, serve) (rw answer))
      ]
