-- ===== src/Samples/Coders.antt =====
-- A serialisation in place of serde_json: codes that read back from the front of what follows.
use git_agentic.Common.{
  ℕ, zero, suc, ◌≡◌, refl, sym, ap, ◌∙◌, Option, none, some, List, [], ◌∷◌, ◌++◌, length,
}
use mathlib.Core.List.{append_assoc, append-nil}
use git_agentic.Common.Text.{Bytes, Text}
use git_agentic.Core.Object.{ObjectKind, TypedRef, Blob, Tree, Attestation, Commit, Object}

pub record Coder (A : Type 0) : Type 0 where
  pub enc : A → Bytes
  pub dec : Bytes → Option (A × Bytes)
  pub law : (a : A) (r : Bytes) → dec (enc a ++ r) ≡ some (a, r)

abbrev pub number : Coder ℕ
number = record {
  enc = λ n. n ∷ [];
  dec = λ s. elim s [ [] ↦ none | n ∷ r ↦ some (n, r) ];
  law = λ n r. refl;
}

module _ {A B : Type 0} where
  abbrev pub next_dec : Coder B → Option (A × Bytes) → Option ((A × B) × Bytes)
  next_dec b none = none
  next_dec b (some (x, r)) = elim (b.dec r) [ none ↦ none | some (y, t) ↦ some ((x, y), t) ]

  abbrev pub pair : Coder A → Coder B → Coder (A × B)
  pair a b = record {
    enc = λ p. a.enc p.0 ++ b.enc p.1;
    dec = λ s. next_dec b (a.dec s);
    law = λ p r.
        rw
          (
            append_assoc (a.enc p.0) (b.enc p.1) r,
            a.law p.0 (b.enc p.1 ++ r),
            next_dec,
            b.law p.1 r,
          )
          refl;
  }

  abbrev pub iso_dec : (B → A) → Option (B × Bytes) → Option (A × Bytes)
  iso_dec g none = none
  iso_dec g (some (b, r)) = some (g b, r)

  abbrev pub iso : (f : A → B) (g : B → A) → ((a : A) → g (f a) ≡ a) → Coder B → Coder A
  iso f g e c = record {
    enc = λ a. c.enc (f a);
    dec = λ s. iso_dec g (c.dec s);
    law = λ a r. ap (iso_dec g) (c.law (f a) r) ∙ ap (λ (b : A). some (b, r)) (e a);
  }

module _ {A : Type 0} (c : Coder A) where
  abbrev pub option_enc : Option A → Bytes
  option_enc none = 0 ∷ []
  option_enc (some a) = 1 ∷ c.enc a

  abbrev pub option_dec : Bytes → Option (Option A × Bytes)
  option_dec [] = none
  option_dec (zero ∷ r) = some (none, r)
  option_dec (suc n ∷ r) = elim (c.dec r) [ none ↦ none | some (a, t) ↦ some (some a, t) ]

  pub option_law : (o : Option A) (r : Bytes) → option_dec (option_enc o ++ r) ≡ some (o, r)
  option_law none r = refl
  option_law (some a) r = rw (c.law a r) refl

  abbrev pub option : Coder (Option A)
  option = record { enc = option_enc; dec = option_dec; law = option_law }

  abbrev pub many_enc : List A → Bytes
  many_enc [] = []
  many_enc (a ∷ l) = c.enc a ++ many_enc l

  abbrev pub many_dec : ℕ → Bytes → Option (List A × Bytes)
  many_dec zero s = some ([], s)
  many_dec (suc n) s = elim (c.dec s) [
    | none ↦ none
    | some (a, t) ↦ (elim (many_dec n t) [ none ↦ none | some (l, u) ↦ some (a ∷ l, u) ])
  ]

  pub many_law : (l : List A) (r : Bytes) → many_dec (length l) (many_enc l ++ r) ≡ some (l, r)
  many_law [] r = refl
  many_law (a ∷ l) r =
      rw (append_assoc (c.enc a) (many_enc l) r, c.law a (many_enc l ++ r), many_law l r) refl

  abbrev pub list_dec : Bytes → Option (List A × Bytes)
  list_dec [] = none
  list_dec (n ∷ r) = many_dec n r

  abbrev pub list : Coder (List A)
  list = record { enc = λ l. length l ∷ many_enc l; dec = list_dec; law = many_law }

abbrev pub text : Coder Text
text = list number

abbrev pub kind_code : ObjectKind → ℕ
kind_code ObjectKind.blob = 0
kind_code ObjectKind.tree = 1
kind_code ObjectKind.segment = 2
kind_code ObjectKind.commit = 3

abbrev pub kind_of : ℕ → ObjectKind
kind_of zero = ObjectKind.blob
kind_of (suc zero) = ObjectKind.tree
kind_of (suc (suc zero)) = ObjectKind.segment
kind_of (suc (suc (suc n))) = ObjectKind.commit

pub kind_law : (k : ObjectKind) → kind_of (kind_code k) ≡ k
kind_law ObjectKind.blob = refl
kind_law ObjectKind.tree = refl
kind_law ObjectKind.segment = refl
kind_law ObjectKind.commit = refl

abbrev pub typed_ref : Coder TypedRef
typed_ref =
    iso (λ r. (r.kind, r.hash)) (λ p. record { kind = p.0; hash = p.1 }) (λ r. refl)
      (pair (iso kind_code kind_of kind_law number) text)

abbrev pub tree_coder : Coder Tree
tree_coder =
    iso (λ t. t.entries) (λ e. record { entries = e }) (λ t. refl) (list (pair text typed_ref))

abbrev pub attestation : Coder Attestation
attestation =
    iso (λ a. (a.issuer, a.signature)) (λ p. record { issuer = p.0; signature = p.1 }) (λ a. refl)
      (pair text text)

-- The fields of a commit, in their order
abbrev pub Fields : Type 0
Fields =
    Option Bytes
    × (Text
        × (ℕ
            × (Text
                × (Option Text
                    × (Option Bytes
                        × (Option Bytes
                            × (Option Bytes
                                × (Option Bytes
                                    × (Option Text
                                        × (Option Bytes
                                            × (Option Bytes
                                                × (Option Bytes
                                                    × (Option Bytes
                                                        × (ℕ
                                                            × (List Attestation
                                                            × Option ℕ)))))))))))))))

abbrev pub fields_coder : Coder Fields
fields_coder = pair (option text) (
    pair text (
      pair number (
        pair text (
          pair (option text) (
            pair (option text) (
              pair (option text) (
                pair (option text) (
                  pair (option text) (
                    pair (option text) (
                      pair (option text) (
                        pair (option text) (
                          pair (option text) (
                            pair (option text)
                              (pair number (pair (list attestation) (option number))))))))))))))))

abbrev pub fields_of : Commit → Fields
fields_of c = (
  c.parent,
  (
    c.author,
    (
      c.timestamp,
      (
        c.message,
        (
          c.code_sha,
          (
            c.prompts,
            (
              c.tools,
              (
                c.model,
                (
                  c.memory_snapshot,
                  (
                    c.schema_version,
                    (
                      c.intent,
                      (
                        c.plan,
                        (c.transcript, (c.evals, (c.cost_cents, (c.signatures, c.peer_uid)))),
                      ),
                    ),
                  ),
                ),
              ),
            ),
          ),
        ),
      ),
    ),
  ),
)

abbrev pub of_fields : Fields → Commit
of_fields
      (
        parent,
        (
          author,
          (
            timestamp,
            (
              message,
              (
                code_sha,
                (
                  prompts,
                  (
                    tools,
                    (
                      model,
                      (
                        memory_snapshot,
                        (
                          schema_version,
                          (
                            intent,
                            (plan, (transcript, (evals, (cost_cents, (signatures, peer_uid))))),
                          ),
                        ),
                      ),
                    ),
                  ),
                ),
              ),
            ),
          ),
        ),
      ) =
    record {
      parent = parent;
      author = author;
      timestamp = timestamp;
      message = message;
      code_sha = code_sha;
      prompts = prompts;
      tools = tools;
      model = model;
      memory_snapshot = memory_snapshot;
      schema_version = schema_version;
      intent = intent;
      plan = plan;
      transcript = transcript;
      evals = evals;
      cost_cents = cost_cents;
      signatures = signatures;
      peer_uid = peer_uid;
    }

abbrev pub commit_coder : Coder Commit
commit_coder = iso fields_of of_fields (λ c. refl) fields_coder

abbrev pub blob_coder : Coder Blob
blob_coder = iso (λ b. b.bytes) (λ b. record { bytes = b }) (λ b. refl) text

abbrev pub object_enc : Object → Bytes
object_enc (Object.blob b) = 0 ∷ blob_coder.enc b
object_enc (Object.tree t) = 1 ∷ tree_coder.enc t
object_enc (Object.commit c) = 2 ∷ commit_coder.enc c

abbrev pub alone : {A B : Type 0} → (A → B) → Option (A × Bytes) → Option B
alone f none = none
alone f (some (a, r)) = some (f a)

abbrev pub object_dec : Bytes → Option Object
object_dec [] = none
object_dec (zero ∷ r) = alone Object.blob (blob_coder.dec r)
object_dec (suc zero ∷ r) = alone Object.tree (tree_coder.dec r)
object_dec (suc (suc n) ∷ r) = alone Object.commit (commit_coder.dec r)

whole : {A B : Type 0} (c : Coder A) (f : A → B) (a : A) → alone f (c.dec (c.enc a)) ≡ some (f a)
whole c f a = ap (alone f) (ap c.dec (sym (append-nil (c.enc a))) ∙ c.law a [])

pub object_law : (o : Object) → object_dec (object_enc o) ≡ some o
object_law (Object.blob b) = whole blob_coder Object.blob b
object_law (Object.tree t) = whole tree_coder Object.tree t
object_law (Object.commit c) = whole commit_coder Object.commit c
