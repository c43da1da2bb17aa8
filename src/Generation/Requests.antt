-- ===== src/Generation/Requests.antt =====
-- generation/service.go, runJob: what the provider is asked for an entry, and what is rendered of its
-- answer. The provider is an argument: `GenerateRequest` to content, or the safe text of an error.
use honeygen.Prelude.{List, [], ◌∷◌, Result, ok, err}
use honeygen.Text.{Text, codes}
use honeygen.WorldModels.{WorldModel}
use honeygen.Generation.Worker.{ManifestEntry}
use honeygen.Generation.Answers.{build_prompt, clean_provider_response}

pub record GenerateRequest : Type 0 where
  pub system_prompt : Text
  pub prompt : Text
  pub metadata : List (Text × Text)

unfoldable pub request_of : Text → WorldModel → ManifestEntry → GenerateRequest
unfolding build_prompt
request_of world_model_id m e = record {
  system_prompt =
      codes
        "Generate realistic enterprise decoy content. Follow the requested format exactly and keep the content coherent with the supplied world model.";
  prompt = build_prompt m e;
  metadata =
      (codes "world_model_id", world_model_id)
      ∷ (codes "path", e.path)
      ∷ (codes "category", e.category)
      ∷ (codes "rendered_type", e.rendered_type)
      ∷ (codes "title", e.title)
      ∷ [];
}

module _ (to_lower unescape : Text → Text) where
  cleaned : Text → Result Text Text → Result Text Text
  cleaned rendered_type (err message) = err message
  cleaned rendered_type (ok content) =
      ok (clean_provider_response to_lower unescape content rendered_type)

  -- what a worker generates for an entry
  unfoldable pub generate_with :
      (GenerateRequest → Result Text Text) → Text → WorldModel → ManifestEntry → Result Text Text
  unfolding request_of cleaned
  generate_with generate world_model_id m e =
      cleaned e.rendered_type (generate (request_of world_model_id m e))
