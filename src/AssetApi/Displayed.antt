-- ===== src/AssetApi/Displayed.antt =====
-- api/assets.go, handleAssetContent: what is shown of an uploaded file.
use mathlib.Core.Path.{subst}
use honeygen.Prelude.{
  ◌≡◌, refl, ◌∙◌, sym, ap, Bool, true, false, ◌&&◌, inl, inr, none, some, Bool-cases, All,
  if◌then◌else◌, ok,
}
use honeygen.Text.{Text}
use honeygen.Text.Equality.{text_eq_refl}
use honeygen.Database.{Asset, live}
use honeygen.Assets
use honeygen.Assets.{stored_row}
use honeygen.Assets.References.{HasAsset}
use honeygen.Assets.Undoing.{find_new}
use honeygen.Storage
use honeygen.Generation.{World}
use honeygen.AssetApi.{
  asset_content_id_from_path, supports_inline_preview, content_of, shown, get_with, looked_up,
  content_handler,
}
use honeygen.Storage.Os.{Bytes}
use honeygen.AssetApi.Upload.{Form, FormFile, Uploader, UploadCalls, upload_handler}
use honeygen.AssetApi.Uploaded.{IsUploaded, Kept, upload_handler_lem}

module _ (k : Uploader) (calls : UploadCalls) (form : Form) (w w' : World) (a : Asset) where
  both : (b : Bool) → (b && b) ≡ b
  both true = refl
  both false = refl

  uploaded_get : IsUploaded k calls form w a w' → Assets.get live a.id w'.db ≡ ok a
  unfolding Assets.get
  uploaded_get u =
      let same : stored_row a w.db ≡ a = ap (λ b. stored_row b w.db) u.row ∙ sym u.row in
      ap (Assets.get live a.id) u.recorded_
      ∙ (rw (u.up, find_new a.id w.db.assets (stored_row a w.db) u.new (text_eq_refl a.id), same)
          refl)

  uploaded_shown :
      IsUploaded k calls form w a w' → supports_inline_preview k.to_lower a ≡ a.previewable
  unfolding supports_inline_preview
  uploaded_shown u =
      ap (supports_inline_preview k.to_lower) u.row ∙ both _ ∙ ap (λ b. b.previewable) (sym u.row)

  uploaded_read :
      (file : FormFile) (bytes : Bytes)
      → form.file ≡ some file
      → file.content ≡ some bytes
      → IsUploaded k calls form w a w'
      → Storage.read k.files w'.disk a.path ≡ ok bytes
  uploaded_read file bytes given content u =
      let at_file : form.file ≡ some u.file = u.given in
      let same : u.file ≡ file = cc in
      let read_ : file.content ≡ some u.bytes = ap (λ f. f.content) (sym same) ∙ u.content in
      let bytes_same : u.bytes ≡ bytes = cc in u.reads ∙ ap ok bytes_same

  content_shown :
      (bytes : Bytes)
      → IsUploaded k calls form w a w'
      → Storage.read k.files w'.disk a.path ≡ ok bytes
      → content_of k.to_lower k.files w' a ≡ ok (a, (if a.previewable then some bytes else none))
  unfolding content_of shown
  content_shown bytes u reads = elim (Bool-cases a.previewable) [
    | inl yes_ ↦ rw (uploaded_shown u, yes_, reads) refl
    | inr no_ ↦ rw (uploaded_shown u, no_) refl
  ]

  -- The content of an uploaded file, asked for by the id of its asset behind the upload, is the bytes
  -- that the form brought where the record says that it can be shown, and else the record alone.
  pub content_handler-upload_handler :
      (path : Text) (file : FormFile) (bytes : Bytes)
      → All (λ e. HasAsset w.db.assets e.asset_id) w.db.events
      → form.file ≡ some file
      → file.content ≡ some bytes
      → upload_handler k calls (ok form) w ≡ (ok a, w')
      → asset_content_id_from_path path ≡ some a.id
      → content_handler k.to_lower k.files live path w'
        ≡ ok (a, (if a.previewable then some bytes else none))
  unfolding content_handler get_with looked_up
  content_handler-upload_handler path file bytes there given content uploaded id =
      let u : IsUploaded k calls form w a w' =
        subst (Kept k calls (ok form) w) uploaded (upload_handler_lem k calls (ok form) w there) in
      rw (id, uploaded_get u) (content_shown bytes u (uploaded_read file bytes given content u))
