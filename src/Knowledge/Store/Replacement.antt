-- ===== src/Knowledge/Store/Replacement.antt =====
-- The shelves behind ReplaceSource of internal/knowledge/store.go.
use mathlib.Core.Path.{fun_ext}
use agentic_demo.Prelude.{
  ◌≡◌, refl, inl, inr, ◌∙◌, ap, Bool, true, false, not, ◌&&◌, Option, none, some, List, [], ◌∷◌,
  ◌++◌, Text, text_eq, eq_of_text_eq, text_eq_refl, All, All-map, if_both, Bool-cases, append-nil,
  if◌then◌else◌, keep_if, keep_if-append, keep_if-same, keep_if-passes, All-both, keep_if_whole,
  keep_if-none, keep_if_under, keep_if-not, keep_if-All, Option-cases,
}
use agentic_demo.Knowledge.Chunking.{Chunk}
use agentic_demo.Knowledge.Store.{
  Document, Vector, DocumentRow, ChunkRow, KnowledgeTables, StoreEnv, insert, belongs, delete_where,
}
use agentic_demo.Knowledge.Store.Insertion.{
  Ends, document_of, placed, rows_of, new_rows, NewIn, HasDocument, Inserted, insert-Inserted,
}
use agentic_demo.Knowledge.Store.Shelves.{
  Shelf, on_shelf, of_source, library, shelved, Linked, FreeFor, SourceBatch, Room, IsRow,
  found-source, found-free,
}

abbrev pub Fits : Text → Text → Option Document → Option DocumentRow → Type 0
Fits tenant source none row = Unit
Fits tenant source (some d) row = (d.source ≡ source) × FreeFor tenant source row

pub both_eq : (a b c d : Text) → (text_eq a b && text_eq c d) ≡ true → (a ≡ b) × (c ≡ d)
both_eq a b c d h = elim (Bool-cases (text_eq a b)) [
  | inl e ↦ let k = rw e at h in (eq_of_text_eq a b e, eq_of_text_eq c d k)
  | inr e ↦ absurd (let k = rw e at h in cc)
]

placed-on_shelf :
    (tenant source u s : Text) (o : Option Document) (row : Option DocumentRow)
    → Fits tenant source o row
    → on_shelf u s (placed tenant o (if belongs tenant source row then none else row))
      ≡ (if text_eq tenant u && text_eq source s then o else on_shelf u s row)
placed-on_shelf tenant source u s none none h =
    if_both (λ (x : Option Document). none ≡ x) (text_eq tenant u && text_eq source s) refl refl
placed-on_shelf tenant source u s none (some r) h =
    elim (Bool-cases (text_eq r.tenant tenant && text_eq r.document.source source)) [
      | inl e ↦
          let q = both_eq _ _ _ _ e in
          elim (Bool-cases (text_eq tenant u && text_eq source s)) [
            | inl f ↦ rw (e, f)
            | inr f ↦ rw (e, f) (rw (q.0, q.1, f))
          ]
      | inr e ↦ elim (Bool-cases (text_eq tenant u && text_eq source s)) [
        | inl f ↦ let q = both_eq _ _ _ _ f in rw (e, f) (rw (← q.0, ← q.1, e))
        | inr f ↦ rw (e, f)
      ]
    ]
placed-on_shelf tenant source u s (some d) none h = rw h.0
placed-on_shelf tenant source u s (some d) (some r) h =
    elim (Bool-cases (text_eq tenant u && text_eq source s)) [
      | inl f ↦ rw (h.0, f)
      | inr f ↦ rw (h.0, f) (rw (h.1.0, h.1.1, f))
    ]

pub found-Fits :
    (t : KnowledgeTables) (tenant source : Text) (docs : List Document) (k : Text)
    → All (λ (x : Document). x.source ≡ source) docs
    → All (λ (x : Document). FreeFor tenant source (t.documents x.id)) docs
    → Fits tenant source (document_of docs k) (t.documents k)
found-Fits t tenant source docs k h f = elim (Option-cases (document_of docs k)) [
  | inl e ↦ rw e tt
  | inr (d, e) ↦ rw e (found-source docs source k d h e, found-free t tenant source docs k d f e)
]

rows_of-All :
    (env : StoreEnv) (tenant : Text) (P : Chunk → Type 0) (cs : List Chunk)
    (answer : Option (List Vector))
    → All P cs
    → All (λ (r : ChunkRow). (r.tenant ≡ tenant) × P r.chunk) (rows_of env tenant cs answer)
rows_of-All env tenant P cs none h = tt
rows_of-All env tenant P [] (some vs) h = tt
rows_of-All env tenant P (c ∷ cs) (some []) h = tt
rows_of-All env tenant P (c ∷ cs) (some (v ∷ vs)) h =
    ((refl, h.0), rows_of-All env tenant P cs (some vs) h.1)

pub new_rows-All :
    (env : StoreEnv) (tenant : Text) (P : Chunk → Type 0) (cs : List Chunk)
    → All P cs
    → All (λ (r : ChunkRow). (r.tenant ≡ tenant) × P r.chunk) (new_rows env tenant cs)
unfolding new_rows
new_rows-All env tenant P cs h = rows_of-All env tenant P cs _ h

-- A row that is on two shelves is on one.
belongs_both :
    (tenant source u s : Text) (row : Option DocumentRow)
    → (text_eq tenant u && text_eq source s) ≡ false
    → belongs u s row ≡ true
    → not (belongs tenant source row) ≡ true
belongs_both tenant source u s none e h = refl
belongs_both tenant source u s (some r) e h =
    elim (Bool-cases (text_eq r.tenant tenant && text_eq r.document.source source)) [
      | inr f ↦ rw f
      | inl f ↦
          let p = both_eq _ _ _ _ h in
          let q = both_eq _ _ _ _ f in
          absurd (let k = rw (← q.0, ← q.1, p.0, p.1, text_eq_refl u, text_eq_refl s) at e in cc)
    ]

-- The chunks that a deletion leaves on a shelf.
kept-shelf :
    (documents : Text → Option DocumentRow) (tenant source u s : Text) (chunks : List ChunkRow)
    → keep_if
        (of_source documents u s)
        (keep_if (λ (c : ChunkRow). not (of_source documents tenant source c)) chunks)
      ≡ (if text_eq tenant u && text_eq source s
          then []
          else keep_if (of_source documents u s) chunks)
kept-shelf documents tenant source u s chunks =
    elim (Bool-cases (text_eq tenant u && text_eq source s)) [
      | inl e ↦
          let q = both_eq _ _ _ _ e in
          rw e (
            rw (← q.0, ← q.1)
              (keep_if-not (of_source documents tenant source) (of_source documents tenant source)
                chunks (λ c h. h)))
      | inr e ↦ rw e (
          keep_if_under (of_source documents u s)
            (λ (c : ChunkRow). not (of_source documents tenant source c)) chunks
            (λ c. belongs_both tenant source u s (documents c.chunk.document_id) e))
    ]

-- The document of a chunk that is left is left as it was.
pub placed-kept :
    (tenant source : Text) (o : Option Document) (row : Option DocumentRow)
    → Fits tenant source o row
    → IsRow row
    → not (belongs tenant source row) ≡ true
    → placed tenant o (if belongs tenant source row then none else row) ≡ row
placed-kept tenant source o none f i h = absurd i
placed-kept tenant source none (some r) f i h =
    elim (Bool-cases (text_eq r.tenant tenant && text_eq r.document.source source)) [
      | inl e ↦ absurd (let k = rw e at h in cc)
      | inr e ↦ rw e
    ]
placed-kept tenant source (some d) (some r) f i h =
    absurd (let k = rw (f.1.0, f.1.1, text_eq_refl tenant, text_eq_refl source) at h in cc)

-- A chunk that is added stands on the shelf of the source.
new-shelf :
    (tenant source u s : Text) (docs : List Document) (k : Text) (old : Option DocumentRow)
    → All (λ (x : Document). x.source ≡ source) docs
    → ((d : Document) × (document_of docs k ≡ some d))
    → belongs u s (placed tenant (document_of docs k) old) ≡ (text_eq tenant u && text_eq source s)
new-shelf tenant source u s docs k old h (d, e) = rw (e, found-source docs source k d h e)

keep_if-same_test :
    (p : ChunkRow → Bool) (b : Bool) (rows : List ChunkRow)
    → All (λ r. p r ≡ b) rows
    → keep_if p rows ≡ (if b then rows else [])
keep_if-same_test p true rows h = keep_if_whole p rows h
keep_if-same_test p false rows h = keep_if-none p rows h

if-append :
    (b : Bool) (xs ys : List ChunkRow)
    → (if b then [] else xs) ++ (if b then ys else []) ≡ (if b then ys else xs)
if-append true xs ys = refl
if-append false xs ys = append-nil xs

-- The chunks of a shelf after a source is replaced.
pub replaced-shelf :
    (env : StoreEnv) (t after : KnowledgeTables) (tenant source : Text) (docs : List Document)
    (cs : List Chunk)
    → Linked t
    → SourceBatch source docs cs
    → Room t tenant source docs cs
    → Inserted env tenant (delete_where (belongs tenant source) t) docs cs after
    → (u s : Text)
    → keep_if (of_source after.documents u s) after.chunks ≡ (
        if text_eq tenant u && text_eq source s
        then new_rows env tenant cs
        else keep_if (of_source t.documents u s) t.chunks)
unfolding delete_where
replaced-shelf env t after tenant source docs cs l b r i u s =
    let kept = keep_if (λ (c : ChunkRow). not (of_source t.documents tenant source c)) t.chunks in
    let rows = new_rows env tenant cs in
    let test = text_eq tenant u && text_eq source s in
    let old : keep_if (of_source after.documents u s) kept
        ≡ (if test then [] else keep_if (of_source t.documents u s) t.chunks) =
      keep_if-same _ _ kept (
        All-map
          (λ (c : ChunkRow).
            IsRow (t.documents c.chunk.document_id)
            × (not (of_source t.documents tenant source c) ≡ true))
          _ kept
          (λ c p. ap (belongs u s) (
            i.documents c.chunk.document_id
            ∙ placed-kept tenant source _ (t.documents c.chunk.document_id)
                (found-Fits t tenant source docs c.chunk.document_id b.sources r.free_documents) p.0
                p.1))
          (All-both _ _ kept (keep_if-All _ _ t.chunks l) (keep_if-passes _ t.chunks)))
      ∙ kept-shelf t.documents tenant source u s t.chunks in
    let new : keep_if (of_source after.documents u s) rows ≡ (if test then rows else []) =
      keep_if-same_test _ test rows (
        All-map (λ (x : ChunkRow). (x.tenant ≡ tenant) × HasDocument docs x.chunk) _ rows
          (λ c p.
            ap (belongs u s) (i.documents c.chunk.document_id)
            ∙ new-shelf tenant source u s docs c.chunk.document_id _ b.sources p.1)
          (new_rows-All env tenant (HasDocument docs) cs b.origins)) in
    ap (keep_if (of_source after.documents u s)) i.chunks
    ∙ keep_if-append (of_source after.documents u s) kept rows
    ∙ ap (λ xs. xs ++ keep_if (of_source after.documents u s) rows) old
    ∙ ap (λ ys. (if test then [] else keep_if (of_source t.documents u s) t.chunks) ++ ys) new
    ∙ if-append test (keep_if (of_source t.documents u s) t.chunks) rows

pub deleted-free :
    (tenant source : Text) (row : Option DocumentRow)
    → FreeFor tenant source row
    → (if belongs tenant source row then none else row) ≡ none
deleted-free tenant source none h = refl
deleted-free tenant source (some row) h = rw (h.0, h.1, text_eq_refl tenant, text_eq_refl source)

pub replaced-Inserted :
    (env : StoreEnv) (t : KnowledgeTables) (tenant source : Text) (docs : List Document)
    (cs : List Chunk)
    → SourceBatch source docs cs
    → Room t tenant source docs cs
    → Ends
        (Inserted env tenant (delete_where (belongs tenant source) t) docs cs)
        (insert env tenant (delete_where (belongs tenant source) t) docs cs)
unfolding delete_where
replaced-Inserted env t tenant source docs cs b r =
    insert-Inserted env tenant (delete_where (belongs tenant source) t) docs cs b.distinct_documents
      (All-map (λ (d : Document). FreeFor tenant source (t.documents d.id)) _ docs
        (λ d f. deleted-free tenant source (t.documents d.id) f) r.free_documents)
      b.distinct_chunks
      (All-map (NewIn t.chunks) _ cs (λ c n. keep_if-All _ _ t.chunks n) r.new_chunks)

pub shelf_path : (x y : Shelf) → x.documents ≡ y.documents → x.chunks ≡ y.chunks → x ≡ y
shelf_path x y d c =
    ap (λ f. record { documents = f; chunks = x.chunks }) d
    ∙ ap (λ rows. record { documents = y.documents; chunks = rows }) c

-- The shelf of a conditional.
pub if_shelf :
    (test : Bool) (x y z : Shelf)
    → z.documents ≡ (λ k. if test then x.documents k else y.documents k)
    → z.chunks ≡ (if test then x.chunks else y.chunks)
    → z ≡ (if test then x else y)
if_shelf true x y z d c = shelf_path z x d c
if_shelf false x y z d c = shelf_path z y d c

pub library-Inserted :
    (env : StoreEnv) (t after : KnowledgeTables) (tenant source : Text) (docs : List Document)
    (cs : List Chunk)
    → Linked t
    → SourceBatch source docs cs
    → Room t tenant source docs cs
    → Inserted env tenant (delete_where (belongs tenant source) t) docs cs after
    → (u s : Text) → library after u s ≡ shelved env tenant source docs cs (library t) u s
unfolding library shelved delete_where
library-Inserted env t after tenant source docs cs l b r i u s =
    let q : (k : Text)
        → on_shelf u s (after.documents k) ≡ (
            if text_eq tenant u && text_eq source s
            then document_of docs k
            else on_shelf u s (t.documents k)) =
      λ k.
        ap (on_shelf u s) (i.documents k)
        ∙ placed-on_shelf tenant source u s (document_of docs k) (t.documents k)
            (found-Fits t tenant source docs k b.sources r.free_documents) in
    if_shelf (text_eq tenant u && text_eq source s)
      (record { documents = document_of docs; chunks = new_rows env tenant cs }) (library t u s)
      (library after u s) (fun_ext q) (replaced-shelf env t after tenant source docs cs l b r i u s)
