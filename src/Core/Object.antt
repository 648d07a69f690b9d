-- ===== src/Core/Object.antt =====
-- crates/agentic-core/src/object.rs: the object kinds and their content addresses.
use git_agentic.Common.{ℕ, ◌≡◌, ◌≢◌, Option, List, [], ap}
use git_agentic.Common.SortedMap
use git_agentic.Common.SortedMap.{SortedMap, insert_comm}
use git_agentic.Common.Text.{Bytes, Text}
use git_agentic.External.{Blake3, Serde}
use git_agentic.Core.Hash.{Hash, of}

pub data ObjectKind : Type 0 where
  blob tree segment commit : ObjectKind

pub record TypedRef : Type 0 where
  pub kind : ObjectKind
  pub hash : Hash

pub record Blob : Type 0 where
  pub bytes : Bytes

pub record Tree : Type 0 where
  pub entries : SortedMap TypedRef

pub record Attestation : Type 0 where
  pub issuer : Text
  pub signature : Bytes

-- A timestamp is a number of nanoseconds: the program only passes it on.
pub record Commit : Type 0 where
  pub parent : Option Hash
  pub author : Text
  pub timestamp : ℕ
  pub message : Text
  pub code_sha : Option Text
  pub prompts : Option Hash
  pub tools : Option Hash
  pub model : Option Hash
  pub memory_snapshot : Option Hash
  pub schema_version : Option Text
  pub intent : Option Hash
  pub plan : Option Hash
  pub transcript : Option Hash
  pub evals : Option Hash
  pub cost_cents : ℕ
  pub signatures : List Attestation
  pub peer_uid : Option ℕ

pub data Object : Type 0 where
  blob : Blob → Object
  tree : Tree → Object
  commit : Commit → Object

abbrev pub kind : Object → ObjectKind
kind (Object.blob b) = ObjectKind.blob
kind (Object.tree t) = ObjectKind.tree
kind (Object.commit c) = ObjectKind.commit

-- The crates that give an object its address and its stored form.
pub record Codec : Type 0 where
  pub blake3 : Blake3
  pub tree_json : Serde Tree
  pub commit_json : Serde Commit
  pub object_json : Serde Object

abbrev pub empty_tree : Tree
empty_tree = record { entries = [] }

-- `Tree::insert`
unfoldable pub tree_insert : Tree → Text → TypedRef → Tree
tree_insert t name r = record { entries = SortedMap.insert t.entries name r }

module _ (x : Codec) where
  unfoldable pub blob_hash : Blob → Hash
  blob_hash b = of x.blake3 b.bytes

  unfoldable pub tree_hash : Tree → Hash
  tree_hash t = of x.blake3 (x.tree_json.to_vec t)

  unfoldable pub commit_hash : Commit → Hash
  commit_hash c = of x.blake3 (x.commit_json.to_vec c)

  -- `Object::hash`
  unfoldable pub hash : Object → Hash
  unfolding blob_hash tree_hash commit_hash
  hash (Object.blob b) = blob_hash b
  hash (Object.tree t) = tree_hash t
  hash (Object.commit c) = commit_hash c

  -- A tree's address does not depend on the order in which two entries of different names went in.
  tree_hash-insert_comm :
      (t : Tree) (a b : Text) (r s : TypedRef)
      → a ≢ b
      → tree_hash (tree_insert (tree_insert t a r) b s)
        ≡ tree_hash (tree_insert (tree_insert t b s) a r)
  unfolding tree_insert
  tree_hash-insert_comm t a b r s ne =
      ap (λ (m : SortedMap TypedRef). tree_hash (record { entries = m }))
        (insert_comm t.entries a b r s ne)
