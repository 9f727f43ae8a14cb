-- ===== src/Policy/Data.antt =====
-- policy/engine/engine.go: SetPolicyData, over the store of OPA as a parameter, and the client's policy data
-- over it (sync/sync.go).
use atol_sdk_go.Prelude.{
  List, Option, none, some, Str, Map, Result, ok, err, Result-cases, inl, inr, ◌≡◌, ap, ◌∙◌, arith,
}
use atol_sdk_go.Policy.Document.{split, slash}
use atol_sdk_go.Policy.Paths.{AreApart, ArePartsApart}
use atol_sdk_go.Sync.Client.State.{PolicyEngine, Client}
use atol_sdk_go.Sync.Client.Overlaid.{DataLaws}

-- storage.AddOp and storage.ReplaceOp
pub data PatchOp : Type 0 where
  add_op replace_op : PatchOp

-- storage.Store of OPA, and a write transaction on it. A document is of type any: `none` is nil.
pub record Storage : Type 1 where
  pub Store : Type 0
  pub Txn : Type 0
  pub Data : Type 0
  pub StorageError : Type 0
  pub new_transaction : Store → Result StorageError Txn
  pub read : List Str → Txn → Result StorageError (Option Data)
  pub write : PatchOp → List Str → Option Data → Txn → Result StorageError Txn
  pub commit : Txn → Store → Result StorageError Store

-- What OPA documents of a store in which every path leads through objects: a transaction reads what it has
-- written at a path, the documents apart from it stay, and what is committed can be read.
pub record StorageLaws (db : Storage) : Type 0 where
  pub written :
      (op : PatchOp) (path : List Str) (v : Option db.Data) (t t' : db.Txn)
      → db.write op path v t ≡ ok t'
      → db.read path t' ≡ ok v
  pub written_apart :
      (op : PatchOp) (path other : List Str) (v : Option db.Data) (t t' : db.Txn)
      → ArePartsApart path other
      → db.write op path v t ≡ ok t'
      → db.read other t' ≡ db.read other t
  pub committed :
      (t : db.Txn) (s s' : db.Store)
      → db.commit t s ≡ ok s'
      → (t' : db.Txn) × (db.new_transaction s' ≡ ok t')
        × ((path : List Str) → db.read path t' ≡ db.read path t)

module _ (db : Storage) where
  pub data DataError : Type 0 where
    not_initialized : DataError
    not_opened : db.StorageError → DataError
    not_written : db.StorageError → DataError
    not_committed : db.StorageError → DataError

  -- ReplaceOp where there is a document at the path.
  unfoldable pub patch_op : List Str → db.Txn → PatchOp
  patch_op path t = elim (db.read path t) [ err x ↦ add_op | ok v ↦ replace_op ]

  -- SetPolicyData: `none` is an engine with no bundle. A transaction that is aborted leaves the store.
  unfoldable pub set_policy_data :
      Str → Option db.Data → Option db.Store → Result DataError (Option db.Store)
  set_policy_data path v none = err not_initialized
  set_policy_data path v (some s) =
      let parts = split slash path in
      elim (db.new_transaction s) [
        | err x ↦ err (not_opened x)
        | ok t ↦ elim (db.write (patch_op parts t) parts v t) [
          | err x ↦ err (not_written x)
          | ok t' ↦ elim (db.commit t' s) [ err x ↦ err (not_committed x) | ok s' ↦ ok (some s') ]
        ]
      ]

  -- The document that a new transaction reads at a path.
  abbrev pub stored_at : List Str → db.Store → Option (Option db.Data)
  stored_at path s = elim (db.new_transaction s) [
    | err x ↦ none
    | ok t ↦ elim (db.read path t) [ err x ↦ none | ok v ↦ some v ]
  ]

  abbrev pub document_at : Str → Option db.Store → Option (Option db.Data)
  document_at path none = none
  document_at path (some s) = stored_at (split slash path) s

  -- The policy engine as the client calls it, with any LoadBundle.
  abbrev pub policy_engine :
      (Str → Map (Option db.Data) → Option db.Store → Result DataError (Option db.Store))
      → PolicyEngine
  policy_engine load = record {
    State = Option db.Store;
    Data = db.Data;
    PolicyError = DataError;
    load_bundle = load;
    set_policy_data = set_policy_data;
  }

  module _ (laws : StorageLaws db) where
    -- A call that succeeds has written in a transaction on the store, and committed that.
    set_steps :
        (path : Str) (v : Option db.Data) (s : db.Store) (p' : Option db.Store)
        → set_policy_data path v (some s) ≡ ok p'
        → (t t' : db.Txn) × (s' : db.Store) × (db.new_transaction s ≡ ok t)
          × (db.write (patch_op (split slash path) t) (split slash path) v t ≡ ok t')
          × (db.commit t' s ≡ ok s')
          × (p' ≡ some s')
    unfolding set_policy_data
    set_steps path v s p' h = elim (Result-cases (db.new_transaction s)) [
      | inr (x, bad) ↦ absurd (ground (arith, h, bad))
      | inl (t, opened) ↦
          elim (Result-cases (db.write (patch_op (split slash path) t) (split slash path) v t)) [
            | inr (x, bad) ↦ absurd (ground (arith, h, opened, bad))
            | inl (t', wrote) ↦ elim (Result-cases (db.commit t' s)) [
              | inr (x, bad) ↦ absurd (ground (arith, h, opened, wrote, bad))
              | inl (s', kept) ↦
                  (t, t', s', opened, wrote, kept, ground (arith, h, opened, wrote, kept))
            ]
          ]
    ]

    -- SetPolicyData sets the document at its path, and leaves those that are apart from it.
    pub document-set :
        (path : Str) (v : Option db.Data) (p p' : Option db.Store)
        → set_policy_data path v p ≡ ok p'
        → document_at path p' ≡ some v
    unfolding set_policy_data
    document-set path v none p' h = absurd (ground (arith, h))
    document-set path v (some s) p' h =
        let (t, t', s', opened, wrote, kept, same) = set_steps path v s p' h in
        let (u, reopened, reads) = laws.committed t' s s' kept in
        let seen =
          reads (split slash path)
          ∙ laws.written (patch_op (split slash path) t) (split slash path) v t t' wrote in
        ap (document_at path) same ∙ ground (arith, reopened, seen)

    pub document-set_apart :
        (path other : Str) (v : Option db.Data) (p p' : Option db.Store)
        → AreApart path other
        → set_policy_data path v p ≡ ok p'
        → document_at other p' ≡ document_at other p
    unfolding set_policy_data
    document-set_apart path other v none p' apart h = absurd (ground (arith, h))
    document-set_apart path other v (some s) p' apart h =
        let (t, t', s', opened, wrote, kept, same) = set_steps path v s p' h in
        let (u, reopened, reads) = laws.committed t' s s' kept in
        let seen =
          reads (split slash other)
          ∙ laws.written_apart (patch_op (split slash path) t) (split slash path)
              (split slash other) v t t' apart wrote in
        ap (document_at other) same ∙ ground (arith, reopened, seen, opened)

    module _
        (load : Str
          → Map (Option db.Data)
          → Option db.Store
          → Result DataError (Option db.Store)) where
      abbrev pub data_laws : DataLaws (policy_engine load)
      data_laws = record {
        document = document_at;
        document-set = document-set;
        document-set_apart = document-set_apart;
      }
