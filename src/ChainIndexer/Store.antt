-- ===== src/ChainIndexer/Store.antt =====
-- What egvm-indexer/db.go gives back of what it stored, and what a restart and a job make of it.
use egvm.Prelude.{◌≡◌, refl, Option, none, List, Bool-cases, Option-cases, inl, inr, ◌⊎◌, arith, ℤ}
use egvm.Outcome.{ok, panic, error_of_db}
use egvm.Bytes.{Bytes, equal_bytes_refl}
use egvm.Indexer.DataFetcher.{ChainLib}
use egvm.ChainIndexer.{
  Stored, absent, broken, stored, Db, StoreLib, other_error, no_error, view, nil_or_panic, update,
  build_txs_key, store_txs_by_height, get_txs_by_height, latest_trusted_header_key,
  store_latest_trusted_header, recovery_latest_trusted_header, init_latest_trusted_header,
}
use egvm.ChainIndexer.Jobs.{EthLib, Job, waiting, job_round}

Stored-cases : (x : Stored) → (x ≡ absent) ⊎ ((x ≡ broken) ⊎ ((bz : Bytes) × (x ≡ stored bz)))
Stored-cases absent = inl refl
Stored-cases broken = inr (inl refl)
Stored-cases (stored bz) = inr (inr (bz, refl))

-- A view of what is there gives an error that is not ErrKeyNotFound, or none.
view-stored :
    {A : Type 0} (unmarshal : Bytes → Option A) (db : Db) (key bz : Bytes)
    → db key ≡ stored bz
    → (view unmarshal db key ≡ other_error) ⊎ ((a : A) × (view unmarshal db key ≡ no_error a))
unfolding view
view-stored unmarshal db key bz e = elim (Option-cases (unmarshal bz)) [
  | inl bad ↦ inl (rw (e, view) (rw bad refl))
  | inr (a, read) ↦ inr (a, rw (e, view) (rw read refl))
]

stored-panics :
    {A : Type 0} (unmarshal : Bytes → Option A) (db : Db) (key bz : Bytes)
    → db key ≡ stored bz
    → nil_or_panic (view unmarshal db key) ≡ panic error_of_db
unfolding nil_or_panic
stored-panics unmarshal db key bz e = elim (view-stored unmarshal db key bz e) [
  | inl v ↦ rw v refl
  | inr (a, v) ↦ rw v refl
]

view-nil_or_panic :
    {A : Type 0} (unmarshal : Bytes → Option A) (db : Db) (key : Bytes)
    → ((db key ≡ absent) × (nil_or_panic (view unmarshal db key) ≡ ok none))
      ⊎ (nil_or_panic (view unmarshal db key) ≡ panic error_of_db)
unfolding nil_or_panic view
view-nil_or_panic unmarshal db key = elim (Stored-cases (db key)) [
  | inl gone ↦ inl (gone, rw (gone, view) refl)
  | inr (inl failing) ↦ inr (rw (failing, view) refl)
  | inr (inr (bz, there)) ↦ inr (stored-panics unmarshal db key bz there)
]

module _ (chain : ChainLib) (lib : StoreLib chain) where
  updated :
      (db db' : Db) (key bz : Bytes) → update chain lib db key bz ≡ ok db' → db' key ≡ stored bz
  unfolding update
  updated db db' key bz e = elim (Bool-cases (lib.commits key)) [
    | inl fine ↦ grind (arith, fine, e, equal_bytes_refl key)
    | inr failing ↦ absurd (grind (arith, failing, e))
  ]

  -- Reading never gives transactions: a height that was stored makes GetTxsByHeight panic, also
  -- where the database and the decoder give no error, and any other call panics or gives nil.
  pub get_txs_by_height-panics :
      (db : Db) (height : ℤ)
      → ((db (build_txs_key height) ≡ absent) × (get_txs_by_height chain lib db height ≡ ok none))
        ⊎ (get_txs_by_height chain lib db height ≡ panic error_of_db)
  unfolding get_txs_by_height
  get_txs_by_height-panics db height = view-nil_or_panic lib.unmarshal_txs db (build_txs_key height)

  pub store_txs-get_txs :
      (db db' : Db) (height : ℤ) (txs : List Bytes)
      → store_txs_by_height chain lib db height txs ≡ ok db'
      → get_txs_by_height chain lib db' height ≡ panic error_of_db
  unfolding store_txs_by_height get_txs_by_height
  store_txs-get_txs db db' height txs e =
      stored-panics lib.unmarshal_txs db' (build_txs_key height) (lib.marshal_txs txs)
        (updated db db' (build_txs_key height) (lib.marshal_txs txs) e)

  -- A job never gets past the height at which it begins: with a database that has no
  -- transactions of this height it waits, and with another one it panics.
  pub job_round-stuck :
      (eth : EthLib) (db : Db) (j : Job) (height : ℤ)
      → ((db (build_txs_key height) ≡ absent) × (job_round eth chain lib db j height ≡ ok waiting))
        ⊎ (job_round eth chain lib db j height ≡ panic error_of_db)
  unfolding job_round
  job_round-stuck eth db j height = elim (get_txs_by_height-panics db height) [
    | inl (gone, e) ↦ inl (gone, rw e refl)
    | inr e ↦ inr (rw e refl)
  ]

  -- A header that was stored makes the next start of the program panic.
  pub init-stored :
      (db db' : Db) (h : chain.SignedHeader)
      → store_latest_trusted_header chain lib db h ≡ ok db'
      → init_latest_trusted_header chain lib db' ≡ panic error_of_db
  unfolding store_latest_trusted_header init_latest_trusted_header recovery_latest_trusted_header
  init-stored db db' h e =
      let there = updated db db' latest_trusted_header_key (lib.marshal_header h) e in
      elim (view-stored lib.unmarshal_header db' latest_trusted_header_key (lib.marshal_header h)
        there) [
          | inl v ↦ rw (v, init_latest_trusted_header) refl
          | inr (a, v) ↦ rw (v, init_latest_trusted_header) refl
        ]
