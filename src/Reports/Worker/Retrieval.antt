-- ===== src/Reports/Worker/Retrieval.antt =====
-- What stands in the context of a report, by expandDocuments of internal/reports/worker.go.
use agentic_demo.Prelude.{
  ◌≡◌, refl, inl, inr, ◌⊎◌, Option, none, some, List, [], ◌∷◌, Text, is_empty, All, AnyOf, All-map,
  Bool-cases,
}
use agentic_demo.Knowledge.Chunking.{Chunk}
use agentic_demo.Knowledge.Store.{Document}
use agentic_demo.Reports.AgentLoop.{seen}
use agentic_demo.Reports.Prompts.{RetrievedContext}
use agentic_demo.Reports.Worker.{fragment, or_fragment, context_of, expand_from}

module _ (find : Text → Option Document) (score : Chunk → Text) where
  -- A document that is found, or a fragment of one of the chunks.
  abbrev pub Drawn : List Chunk → RetrievedContext → Type 0
  Drawn cs x = ((id : Text) × (find id ≡ some x.document)) ⊎ AnyOf (λ c. x.document ≡ fragment c) cs

  Drawn-more : (c : Chunk) (cs : List Chunk) (x : RetrievedContext) → Drawn cs x → Drawn (c ∷ cs) x
  Drawn-more c cs x (inl h) = inl h
  Drawn-more c cs x (inr h) = inr (inr h)

  or_fragment-Drawn :
      (c : Chunk) (cs : List Chunk) (found : Option Document)
      → find c.document_id ≡ found
      → Drawn (c ∷ cs) (context_of score c (or_fragment c found))
  or_fragment-Drawn c cs none e = inr (inl refl)
  or_fragment-Drawn c cs (some doc) e = inl (c.document_id, e)

  pub expand_from-Drawn :
      (known : List Text) (cs : List Chunk) → All (Drawn cs) (expand_from find score known cs)
  unfolding expand_from
  expand_from-Drawn known [] = tt
  expand_from-Drawn known (c ∷ cs) =
      let tail = λ (ks : List Text).
        All-map (Drawn cs) (Drawn (c ∷ cs)) (expand_from find score ks cs) (Drawn-more c cs)
          (expand_from-Drawn ks cs) in
      elim (Bool-cases (is_empty c.document_id)) [
        | inl e ↦ rw (e, All) (inr (inl refl), tail known)
        | inr e ↦
            rw (e, All)
              (elim (Bool-cases (seen c.document_id known)) [
                | inl f ↦ rw (f, All) (tail known)
                | inr f ↦
                    rw (f, All)
                      (
                        or_fragment-Drawn c cs (find c.document_id) refl,
                        tail (c.document_id ∷ known),
                      )
              ])
      ]
