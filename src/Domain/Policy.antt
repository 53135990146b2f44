-- ===== src/Domain/Policy.antt =====
-- crates/marginalis-domain/src/policy.rs: the limits of a note's input.
use Prim.Native.String.{String}
use marginalis.Prelude.{ℕ, List, [], ◌∷◌, ◌*◌}

pub record NotePolicy : Type 0 where
  pub max_title_characters : ℕ
  pub max_source_bytes : ℕ
  pub max_patch_bytes : ℕ
  pub max_patch_hunks : ℕ
  pub max_tags : ℕ
  pub max_tag_characters : ℕ
  pub max_output_bytes : ℕ
  pub allowed_source_languages : List String
  pub allowed_math_languages : List String
  pub allowed_mathematical_block_roles : List String
  pub allowed_url_schemes : List String
  pub allowed_document_attributes : List String
  pub allowed_citation_styles : List String

abbrev pub note_policy : NotePolicy
note_policy = record {
  max_title_characters = 200;
  max_source_bytes = 512 * 1024;
  max_patch_bytes = 512 * 1024;
  max_patch_hunks = 100;
  max_tags = 50;
  max_tag_characters = 64;
  max_output_bytes = 50 * 1024 * 1024;
  allowed_source_languages =
      "rust" ∷ "python" ∷ "typescript" ∷ "javascript" ∷ "json" ∷ "yaml" ∷ "toml" ∷ "bash" ∷ "sql"
      ∷ "text" ∷ [];
  allowed_math_languages = "latexmath" ∷ [];
  allowed_mathematical_block_roles =
      "definition" ∷ "proposition" ∷ "lemma" ∷ "theorem" ∷ "corollary" ∷ "proof" ∷ [];
  allowed_url_schemes = "http" ∷ "https" ∷ [];
  allowed_document_attributes =
      "marginalis-tags" ∷ "marginalis-citation-style" ∷ "sectnums" ∷ "toc" ∷ "toclevels" ∷ "stem"
      ∷ "source-language" ∷ [];
  allowed_citation_styles = "author-year" ∷ "numeric" ∷ [];
}
