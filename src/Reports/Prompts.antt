-- ===== src/Reports/Prompts.antt =====
-- internal/reports/prompts.go: the query for context, and the context of a report as text.
use agentic_demo.Prelude.{ℕ, suc, List, [], ◌∷◌, ◌++◌, Text, lit, decimal, join}
use agentic_demo.Knowledge.Store.{Document}

pub data ReportType : Type 0 where
  daily weekly monthly on_demand : ReportType
  other : Text → ReportType

pub record ReportConfig : Type 0 where
  pub type : ReportType
  pub focus_areas : List Text

abbrev pub topic : ReportType → List Text
topic daily = lit "recent signals, anomalies, key business metrics, immediate action items" ∷ []
topic weekly = lit "weekly trends, patterns compared to prior week, emerging opportunities" ∷ []
topic monthly =
    lit "strategic trends, long-term patterns, high-level recommendations, market shifts" ∷ []
topic on_demand = lit "key business data, relevant insights" ∷ []
topic (other name) = []

unfoldable pub focus_part : List Text → List Text
unfolding join
focus_part [] = []
focus_part (area ∷ areas) = (lit "focus on: " ++ join (area ∷ areas) (lit ", ")) ∷ []

-- `BuildPrompt`.
unfoldable pub build_prompt : ReportConfig → Text
unfolding focus_part join
build_prompt config = join (topic config.type ++ focus_part config.focus_areas) (lit "; ")

-- `similarity` is the text that `%.2f` prints of it.
pub record RetrievedContext : Type 0 where
  pub source : Text
  pub document_type : Text
  pub similarity : Text
  pub document : Document

abbrev pub entry : ℕ → RetrievedContext → Text
entry i x =
    lit "--- Source "
    ++ (decimal i
        ++ (lit ": "
            ++ (x.source
                ++ (lit " ("
                    ++ (x.document_type
                        ++ (lit ", similarity: "
                            ++ (x.similarity
                                ++ (lit ") ---\n" ++ (x.document.content ++ lit "\n\n")))))))))

abbrev pub entries : ℕ → List RetrievedContext → Text
entries i [] = []
entries i (x ∷ xs) = entry i x ++ entries (suc i) xs

-- `BuildContext`.
unfoldable pub build_context : List RetrievedContext → Text
build_context [] =
    lit "No relevant data found in the knowledge base. Generate a report noting the lack of data."
build_context (x ∷ xs) =
    lit "The following data was retrieved from the knowledge base for this report:\n\n"
    ++ (entries 1 (x ∷ xs) ++ lit "\nUse this data to generate the report. Cite sources by number.")
