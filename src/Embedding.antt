-- ===== src/Embedding.antt =====
-- crates/sovalune-model-runtime/src/embedding.rs: the two backends of embeddings and their factory. The
-- HTTP client is `post`, which gives for a URL, a key, a model and the texts the status, the body as a
-- text and the body as serde reads it, or the text of its failure.
pub mod Batches
use mathlib.Core.Option
use sovalune_core.Common.{
  ℕ, Bool, true, false, not, ◌||◌, Option, none, some, List, [], ◌∷◌, ◌++◌, map, Result, ok, err,
  leb, if◌then◌else◌, ◌==◌,
}
use sovalune_core.Text.{Text, codes, text_eq, contains, is_empty}
use sovalune_core.Text.Pieces.{trim_end_matches, find_map}
use sovalune_core.Text.Decimal.{print_nat}
use sovalune_core.Json.{Json, as_str, as_array, at}
use sovalune_core.Backend.OpenAi.{is_success}

pub data EmbeddingError : Type 0 where
  http : Text → EmbeddingError
  api_error : ℕ → Text → EmbeddingError
  backend_unavailable : Text → EmbeddingError
  timeout : ℕ → EmbeddingError
  dimension_mismatch : ℕ → ℕ → EmbeddingError
  empty_input : EmbeddingError
  internal : Text → EmbeddingError

-- `Display`, as `thiserror` derives it
unfoldable pub display : EmbeddingError → Text
display (http e) = codes "HTTP error: " ++ e
display (api_error status body) = codes "API error " ++ (print_nat status ++ (codes ": " ++ body))
display (backend_unavailable e) = codes "Backend unavailable: " ++ e
display (timeout ms) = codes "Timeout after " ++ (print_nat ms ++ codes "ms")
display (dimension_mismatch expected got) =
    codes "Dimension mismatch: expected "
    ++ (print_nat expected ++ (codes ", got " ++ print_nat got))
display empty_input = codes "Empty input"
display (internal e) = codes "Internal error: " ++ e

module _ (F : Type 0) where
  abbrev pub Vector : Type 0
  Vector = List F

  -- the trait
  pub record EmbeddingBackend : Type 0 where
    pub embed : Text → Result Vector EmbeddingError
    pub embed_batch : List Text → Result (List Vector) EmbeddingError
    pub dimensions : ℕ
    pub model_name : Text
    pub health_check : Bool

  -- an element of `data`
  pub record EmbeddingData : Type 0 where
    pub embedding : Vector
    pub index : ℕ

  -- `body` is what serde makes of the body: a list of data, or a list of vectors
  pub record Reply (B : Type 0) : Type 0 where
    pub status : ℕ
    pub text : Option Text
    pub body : Result B Text

pub record OpenAiEmbeddingBackend : Type 0 where
  pub api_url : Text
  pub api_key : Text
  pub model : Text
  pub dimensions : ℕ

pub record LocalEmbeddingBackend : Type 0 where
  pub server_url : Text
  pub model : Text
  pub dimensions : ℕ

unfoldable pub new_openai : Text → Text → Text → ℕ → OpenAiEmbeddingBackend
new_openai api_url api_key model dimensions = record {
  api_url = trim_end_matches (λ c. c == 47) api_url;
  api_key = api_key;
  model = model;
  dimensions = dimensions;
}

unfoldable pub new_local : Text → Text → ℕ → LocalEmbeddingBackend
new_local server_url model dimensions = record {
  server_url = trim_end_matches (λ c. c == 47) server_url;
  model = model;
  dimensions = dimensions;
}

unfoldable pub succeeds : {A : Type 0} → Result A EmbeddingError → Bool
succeeds (ok a) = true
succeeds (err e) = false

module _ {F : Type 0} where
  -- `next().ok_or(EmptyInput)`
  unfoldable pub first_vector :
      Result (List (Vector F)) EmbeddingError → Result (Vector F) EmbeddingError
  first_vector (err e) = err e
  first_vector (ok []) = err empty_input
  first_vector (ok (v ∷ vs)) = ok v

  -- the stable sort by the index
  unfoldable pub insert_by_index : EmbeddingData F → List (EmbeddingData F) → List (EmbeddingData F)
  insert_by_index d [] = d ∷ []
  insert_by_index d (e ∷ es) =
      let rest = insert_by_index d es in if leb d.index e.index then d ∷ e ∷ es else e ∷ rest

  unfoldable pub sort_by_index : List (EmbeddingData F) → List (EmbeddingData F)
  unfolding insert_by_index
  sort_by_index [] = []
  sort_by_index (d ∷ ds) = insert_by_index d (sort_by_index ds)

  unfoldable pub vectors : List (EmbeddingData F) → List (Vector F)
  unfolding sort_by_index
  vectors ds = map (λ (d : EmbeddingData F). d.embedding) (sort_by_index ds)

  -- what a request comes to, `read` being what is made of the body
  unfoldable pub read_reply :
      {B : Type 0}
      → (B → List (Vector F))
      → Result (Reply F B) Text
      → Result (List (Vector F)) EmbeddingError
  read_reply read (err e) = err (http e)
  read_reply read (ok reply) =
      if not (is_success reply.status)
      then err (api_error reply.status (Option.get_or reply.text []))
      else elim reply.body [ err e ↦ err (http e) | ok body ↦ ok (read body) ]

  module _
      (post : Text → Text → Text → List Text → Result (Reply F (List (EmbeddingData F))) Text) where
    unfoldable pub embed_batch_openai :
        OpenAiEmbeddingBackend → List Text → Result (List (Vector F)) EmbeddingError
    unfolding read_reply vectors
    embed_batch_openai b [] = err empty_input
    embed_batch_openai b (t ∷ ts) =
        read_reply vectors
          (post (b.api_url ++ codes "/embeddings") (codes "Bearer " ++ b.api_key) b.model (t ∷ ts))

    unfoldable pub openai_backend : OpenAiEmbeddingBackend → EmbeddingBackend F
    unfolding embed_batch_openai first_vector succeeds
    openai_backend b = record {
      embed = λ text. first_vector (embed_batch_openai b (text ∷ []));
      embed_batch = embed_batch_openai b;
      dimensions = b.dimensions;
      model_name = b.model;
      health_check = succeeds (first_vector (embed_batch_openai b (codes "test" ∷ [])));
    }

  module _ (post : Text → Text → List Text → Result (Reply F (List (Vector F))) Text) where
    unfoldable pub embed_batch_local :
        LocalEmbeddingBackend → List Text → Result (List (Vector F)) EmbeddingError
    unfolding read_reply
    embed_batch_local b [] = err empty_input
    embed_batch_local b (t ∷ ts) =
        read_reply (λ vs. vs) (post (b.server_url ++ codes "/api/embed") b.model (t ∷ ts))

    unfoldable pub local_backend : LocalEmbeddingBackend → EmbeddingBackend F
    unfolding embed_batch_local first_vector succeeds
    local_backend b = record {
      embed = λ text. first_vector (embed_batch_local b (text ∷ []));
      embed_batch = embed_batch_local b;
      dimensions = b.dimensions;
      model_name = b.model;
      health_check = succeeds (first_vector (embed_batch_local b (codes "test" ∷ [])));
    }

-- a name that speaks of embeddings
unfoldable pub embedding_name : Json → Option Text
embedding_name model = elim (as_str (at (codes "name") model)) [
  | none ↦ none
  | some name ↦
      if contains name (codes "embed")
        || contains name (codes "bge")
        || contains name (codes "nomic")
      then some name
      else none
]

-- `get_json` is the status of a GET, with the body if it is JSON
unfoldable pub detect_model : (Text → Option (ℕ × Option Json)) → Text → Text
unfolding embedding_name
detect_model get_json server_url = elim (get_json (server_url ++ codes "/api/tags")) [
  | none ↦ codes "nomic-embed-text"
  | some (status, none) ↦ codes "nomic-embed-text"
  | some (status, some body) ↦
      if is_success status
      then Option.get_or
          (find_map embedding_name (Option.get_or (as_array (at (codes "models") body)) []))
          (codes "nomic-embed-text")
      else codes "nomic-embed-text"
]

-- the backend that a configuration asks for
pub data AnyBackend : Type 0 where
  openai : OpenAiEmbeddingBackend → AnyBackend
  local : LocalEmbeddingBackend → AnyBackend

unfoldable pub create :
    (Text → Option (ℕ × Option Json))
    → Text
    → Text
    → Option Text
    → Text
    → ℕ
    → Result AnyBackend EmbeddingError
unfolding new_openai new_local detect_model
create get_json backend_type api_url api_key model dimensions =
    if text_eq backend_type (codes "openai")
    then elim api_key [
      | none ↦ err (internal (codes "API key required for OpenAI embedding"))
      | some key ↦ ok (openai (new_openai api_url key model dimensions))
    ]
    else if text_eq backend_type (codes "local")
    then ok (
        local (
          new_local api_url (if is_empty model then detect_model get_json api_url else model)
            dimensions))
    else err (internal (codes "Unknown embedding backend: " ++ backend_type))
