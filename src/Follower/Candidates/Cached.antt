-- ===== src/Follower/Candidates/Cached.antt =====
-- toolkit/mainchain-follower/db-sync-follower/src/candidates/cached.rs: the caches of the answers for
-- stable epochs, in front of a source of candidates. `LruCache` of the crate lru is an interface;
-- the mutexes, which no panic poisons, are left out. What an error leaves of the caches is
-- not told: the state is returned beside an answer.
pub mod Answers
pub mod Requests
pub mod Runs
use iagon_network_explorer_n.Prelude.{
  ℕ, ◌-◌, ◌≡◌, ◌⊎◌, Bytes, Result, ok, err, panic, ◌>>=◌, Bool, true, false, ◌&&◌, leb, ◌==◌,
  if◌then◌else◌, Option, none, some, List, filter, find, greatest,
}
use iagon_network_explorer_n.Domain.{CandidateRegistrations}
use iagon_network_explorer_n.Ariadne.{AriadneParameters, AuthoritySelectionDataSource}
use iagon_network_explorer_n.Follower.Database.{
  DataSourceError, internal_data_source_error, BlockRow, block_key, holds,
}

-- The highest block whose ancestor `security_parameter` blocks below is in the table gives the epoch
-- of that ancestor, less one; a null or a negative number is an error.
unfoldable pub block_at : List BlockRow → ℕ → Option BlockRow
unfolding holds
block_at rows n = find (λ r. holds (λ m. m == n) r.block_no) rows

unfoldable pub epoch_before : Option BlockRow → Result DataSourceError (Option ℕ)
epoch_before none = ok none
epoch_before (some r) = elim r.epoch_no [
  | none ↦ err internal_data_source_error
  | some n ↦ if n == 0 then err internal_data_source_error else ok (some (n - 1))
]

unfoldable pub has_row : Option BlockRow → Bool
has_row none = false
has_row (some r) = true

-- `db_model::get_latest_stable_epoch`
unfoldable pub get_latest_stable_epoch : List BlockRow → ℕ → Result DataSourceError (Option ℕ)
unfolding block_at epoch_before has_row holds block_key
get_latest_stable_epoch rows security_parameter =
    elim (greatest block_key (
      filter
        (λ r.
          holds (λ n. leb security_parameter n && has_row (block_at rows (n - security_parameter)))
            r.block_no)
        rows)) [
          | none ↦ ok none
          | some r ↦ epoch_before (block_at rows (block_key r - security_parameter))
        ]

-- A key is served with what was put under it last, if it has not been evicted.
pub record LruCache (K V : Type 0) : Type 1 where
  pub Cache : Type 0
  pub empty : ℕ → Cache
  pub get : K → Cache → Option V × Cache
  pub put : K → V → Cache → Cache
  pub peek : Cache → K → Option V
  pub get_reads : (k : K) (c : Cache) → (get k c).0 ≡ peek c k
  pub get_keeps : (k q : K) (c : Cache) (v : V) → peek (get k c).1 q ≡ some v → peek c q ≡ some v
  pub put_holds :
      (k q : K) (v w : V) (c : Cache)
      → peek (put k v c) q ≡ some w
      → ((q ≡ k) × (w ≡ v)) ⊎ (peek c q ≡ some w)
  pub peek_empty : (n : ℕ) (k : K) → peek (empty n) k ≡ none

module _ {E K V : Type 0} (lru : LruCache K V) where
  -- An answer from the cache, or from the query, which then is put into the cache.
  unfoldable pub serve : lru.Cache → K → Result E V → Result E (V × lru.Cache)
  serve cache key query =
      let (found, cache') = lru.get key cache in
      elim found [ some v ↦ ok (v, cache') | none ↦ do v ← query; ok (v, lru.put key v cache') ]

abbrev pub AriadneParametersCacheKey : Type 0
AriadneParametersCacheKey = ℕ × Bytes × Bytes

abbrev pub CandidatesCacheKey : Type 0
CandidatesCacheKey = ℕ × Bytes

-- What a request sees of the main chain.
pub record View (E : Type 0) : Type 0 where
  pub inner : AuthoritySelectionDataSource E
  pub latest_stable_epoch : Result E (Option ℕ)

module _ (parameters_lru : LruCache AriadneParametersCacheKey AriadneParameters)
    (candidates_lru : LruCache CandidatesCacheKey (List CandidateRegistrations)) where
  pub record CandidateDataSourceCached : Type 0 where
    pub ariadne_parameters_cache : parameters_lru.Cache
    pub candidates_cache : candidates_lru.Cache
    pub highest_seen_stable_epoch : Option ℕ

  -- A cache of size 0 is no `NonZeroUsize`: the code panics.
  unfoldable pub new : {E : Type 0} → ℕ → Result E CandidateDataSourceCached
  new candidates_for_epoch_cache_size =
      if candidates_for_epoch_cache_size == 0
      then panic
      else ok (record {
        ariadne_parameters_cache = parameters_lru.empty candidates_for_epoch_cache_size;
        candidates_cache = candidates_lru.empty candidates_for_epoch_cache_size;
        highest_seen_stable_epoch = none;
      })

  unfoldable pub has_seen : Option ℕ → ℕ → Bool
  has_seen none data_epoch = false
  has_seen (some stable_epoch) data_epoch = leb data_epoch stable_epoch

  unfoldable pub use_stable_epoch :
      CandidateDataSourceCached → ℕ → Option ℕ → Bool × CandidateDataSourceCached
  use_stable_epoch s data_epoch none = (false, s)
  use_stable_epoch s data_epoch (some stable_epoch) =
      (leb data_epoch stable_epoch, record s { highest_seen_stable_epoch = some stable_epoch })

  module _ {E : Type 0} where
    unfoldable pub can_use_caching_for_request :
        View E → CandidateDataSourceCached → ℕ → Result E (Bool × CandidateDataSourceCached)
    unfolding has_seen use_stable_epoch
    can_use_caching_for_request view s request_epoch = do
      data_epoch ← view.inner.data_epoch request_epoch
      (if has_seen s.highest_seen_stable_epoch data_epoch
          then ok (true, s)
          else (do found ← view.latest_stable_epoch; ok (use_stable_epoch s data_epoch found)))

    unfoldable pub parameters_by_caching :
        View E
        → (epoch : ℕ) (d_parameter_policy permissioned_candidates_policy : Bytes)
        → Bool × CandidateDataSourceCached
        → Result E (AriadneParameters × CandidateDataSourceCached)
    unfolding serve
    parameters_by_caching view epoch d_policy c_policy (true, s) = do
      (response, cache) ←
          serve parameters_lru s.ariadne_parameters_cache (epoch, d_policy, c_policy)
            (view.inner.get_ariadne_parameters epoch d_policy c_policy)
      ok (response, record s { ariadne_parameters_cache = cache })
    parameters_by_caching view epoch d_policy c_policy (false, s) = do
      response ← view.inner.get_ariadne_parameters epoch d_policy c_policy
      ok (response, s)

    unfoldable pub get_ariadne_parameters :
        View E
        → CandidateDataSourceCached
        → (epoch : ℕ) (d_parameter_policy permissioned_candidates_policy : Bytes)
        → Result E (AriadneParameters × CandidateDataSourceCached)
    unfolding can_use_caching_for_request parameters_by_caching
    get_ariadne_parameters view s epoch d_policy c_policy = do
      caching ← can_use_caching_for_request view s epoch
      parameters_by_caching view epoch d_policy c_policy caching

    unfoldable pub candidates_by_caching :
        View E
        → (epoch : ℕ) (committee_candidate_address : Bytes) → Bool × CandidateDataSourceCached
        → Result E (List CandidateRegistrations × CandidateDataSourceCached)
    unfolding serve
    candidates_by_caching view epoch address (true, s) = do
      (response, cache) ←
          serve candidates_lru s.candidates_cache (epoch, address)
            (view.inner.get_candidates epoch address)
      ok (response, record s { candidates_cache = cache })
    candidates_by_caching view epoch address (false, s) = do
      response ← view.inner.get_candidates epoch address
      ok (response, s)

    unfoldable pub get_candidates :
        View E
        → CandidateDataSourceCached
        → (epoch : ℕ) (committee_candidate_address : Bytes)
        → Result E (List CandidateRegistrations × CandidateDataSourceCached)
    unfolding can_use_caching_for_request candidates_by_caching
    get_candidates view s epoch address = do
      caching ← can_use_caching_for_request view s epoch
      candidates_by_caching view epoch address caching
