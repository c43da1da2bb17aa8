-- ===== src/AssetApi.antt =====
-- api/assets.go: the handlers of one asset, behind the routing. An error is its HTTP status with its
-- code. `strings.ToLower` is a parameter.
pub mod Upload
pub mod Uploaded
pub mod Displayed
use honeygen.Prelude.{
  ℕ, Bool, true, false, not, ◌&&◌, ◌||◌, ◌==◌, leb, ◌-◌, none, some, Option, List, [], ◌∷◌, ◌++◌,
  if◌then◌else◌, Result, ok, err, ◌>>=◌, length, take, drop,
}
use honeygen.Text.{Text, codes, text_eq, trim_space, has_prefix, trim_prefix}
use honeygen.Path.{slash}
use honeygen.Database.{Asset, Context}
use honeygen.Assets
use honeygen.Assets.{AssetError, asset_not_found}
use honeygen.Storage
use honeygen.Storage.{StorageError, Filesystem}
use honeygen.Storage.Os.{Bytes}
use honeygen.Generation.{
  World, ServiceError, asset_error, asset_not_deletable, Reply, Calls, remove_asset,
}

abbrev pub ApiError : Type 0
ApiError = ℕ × Text

abbrev pub not_found : ApiError
not_found = (404, codes "not_found")

abbrev pub assets_unavailable : ApiError
assets_unavailable = (500, codes "assets_unavailable")

has_slash : Text → Bool
has_slash [] = false
has_slash (c ∷ s) = c == slash || has_slash s

one_segment : Text → Option Text
unfolding has_slash
one_segment id = if text_eq id [] || has_slash id then none else some id

-- `strings.HasSuffix` and `strings.TrimSuffix`
has_suffix : Text → Text → Bool
has_suffix s t = leb (length t) (length s) && text_eq (drop (length s - length t) s) t

trim_suffix : Text → Text → Text
unfolding has_suffix
trim_suffix s t = if has_suffix s t then take (length s - length t) s else s

-- `assetIDFromPath`
unfoldable pub asset_id_from_path : Text → Option Text
unfolding one_segment
asset_id_from_path path =
    if has_prefix path (codes "/api/assets/")
    then one_segment (trim_space (trim_prefix path (codes "/api/assets/")))
    else none

-- `assetContentIDFromPath`
unfoldable pub asset_content_id_from_path : Text → Option Text
unfolding one_segment trim_suffix has_suffix
asset_content_id_from_path path =
    if has_prefix path (codes "/api/assets/") && has_suffix path (codes "/content")
    then one_segment (
        trim_space (
          trim_suffix (trim_suffix (trim_prefix path (codes "/api/assets/")) (codes "/content"))
            (slash ∷ [])))
    else none

looked_up : Result AssetError Asset → Result ApiError Asset
looked_up (ok a) = ok a
looked_up (err asset_not_found) = err not_found
looked_up (err _) = err assets_unavailable

-- behind the id
get_with : Context → World → Option Text → Result ApiError Asset
unfolding looked_up
get_with ctx w none = err not_found
get_with ctx w (some id) = looked_up (Assets.get ctx id w.db)

-- `handleAssetGet`
unfoldable pub get_handler : Context → Text → World → Result ApiError Asset
unfolding get_with
get_handler ctx path w = get_with ctx w (asset_id_from_path path)

is_text_type : Text → Bool
is_text_type t =
    text_eq t (codes "html")
    || text_eq t (codes "markdown")
    || text_eq t (codes "text")
    || text_eq t (codes "csv")

-- `isUploadPreviewable`
unfoldable pub is_previewable : (Text → Text) → Text → Text → Bool
unfolding is_text_type
is_previewable to_lower rendered_type mime_type =
    is_text_type rendered_type || has_prefix (to_lower mime_type) (codes "text/")

-- `assetSupportsInlinePreview`
unfoldable pub supports_inline_preview : (Text → Text) → Asset → Bool
unfolding is_previewable
supports_inline_preview to_lower a =
    a.previewable && is_previewable to_lower a.rendered_type a.mime_type

-- the answer of the content handler: `none` where the content is not shown
abbrev pub Content : Type 0
Content = Asset × Option Bytes

shown : Asset → Result StorageError Bytes → Result ApiError Content
shown a (ok bytes) = ok (a, some bytes)
shown a (err e) = err (500, codes "asset_content_unavailable")

content_of : (Text → Text) → Option Filesystem → World → Asset → Result ApiError Content
unfolding shown
content_of to_lower f w a =
    if supports_inline_preview to_lower a
    then shown a (Storage.read f w.disk a.path)
    else ok (a, none)

-- `handleAssetContent`
unfoldable pub content_handler :
    (Text → Text) → Option Filesystem → Context → Text → World → Result ApiError Content
unfolding get_with content_of
content_handler to_lower f ctx path w = do
  a ← get_with ctx w (asset_content_id_from_path path)
  content_of to_lower f w a

-- the answer to a deletion
deleted : Reply → Result ApiError (Unit {0}) × World
deleted (ok _, w) = (ok tt, w)
deleted (err (asset_error asset_not_found), w) = (err not_found, w)
deleted (err asset_not_deletable, w) = (err (409, codes "asset_not_deletable"), w)
deleted (err _, w) = (err (500, codes "asset_delete_failed"), w)

delete_with : Option Filesystem → Calls → World → Option Text → Result ApiError (Unit {0}) × World
unfolding deleted
delete_with f calls w none = (err not_found, w)
delete_with f calls w (some id) = deleted (remove_asset f calls id w)

-- `handleAssetDelete`
unfoldable pub delete_handler :
    Option Filesystem → Calls → Text → World → Result ApiError (Unit {0}) × World
unfolding delete_with
delete_handler f calls path w = delete_with f calls w (asset_id_from_path path)
