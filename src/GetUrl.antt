-- ===== src/GetUrl.antt =====
-- pkg/exec/get_url.go: the task `get_url`. Its result is GetURLResult{} in every case.
pub mod Laws
use mathlib.Core.List.{reverse}
use sophons.Base.{
  ℕ, String, str_eq, Bool, true, false, not, ◌&&◌, List, [], ◌∷◌, ◌==◌, Option, none, some, is_some,
  is_empty, if◌then◌else◌,
}
use sophons.Base.Text.{codes, contains}
use sophons.Base.Action.{
  Error, message, wrapped, is_not_exist, Outcome, ok, err, panic, Action, wrapping, wrap, and_then,
  read, raise, pure, ◌>>=◌, ◌>>◌,
}
use sophons.Result.{CommonResult, empty_result}
use sophons.Os.{Os, FileInfo}
use sophons.Util.{get_uid, get_gid}
use sophons.Util.Mode.{ModeArg, absent, text, apply_mode_and_ids}

-- proto.GetURL: the parameters that the task reads.
pub record GetUrl : Type 0 where
  pub url : String
  pub dest : String
  pub mode : Option String
  pub owner : String
  pub group : String

-- An http.Response: whether its status is 200, the header Content-Disposition, and the body.
pub record Response : Type 0 where
  pub is_ok : Bool
  pub content_disposition : List ℕ
  pub body : String

-- http.Get, the path of url.Parse, io.Copy of a body into a file with Close, and functions of
-- path/filepath and path. Names that come from a header or a URL are code points.
pub record Web (W : Type 0) : Type 0 where
  pub get : String → W → Outcome Response
  pub url_path : String → Outcome (List ℕ)
  pub save : String → String → Action W (Unit {0})
  pub join : String → List ℕ → String
  pub base : List ℕ → List ℕ
  pub path_base : List ℕ → List ℕ

unfoldable pub strip_prefix : List ℕ → List ℕ → Option (List ℕ)
strip_prefix [] s = some s
strip_prefix (k ∷ key) [] = none
strip_prefix (k ∷ key) (c ∷ s) = let rest = strip_prefix key s in if k == c then rest else none

-- cd[i+len(key):], where i is strings.Index(cd, key)
unfoldable pub after_key : List ℕ → List ℕ → Option (List ℕ)
unfolding strip_prefix
after_key key [] = none
after_key key (c ∷ s) =
    let later = after_key key s in
    elim (strip_prefix key (c ∷ s)) [ some rest ↦ some rest | none ↦ later ]

unfoldable pub trim_start : List ℕ → List ℕ → List ℕ
trim_start cutset [] = []
trim_start cutset (c ∷ s) =
    let rest = trim_start cutset s in if contains cutset c then rest else c ∷ s

-- strings.Trim
unfoldable pub trim : List ℕ → List ℕ → List ℕ
unfolding trim_start
trim cutset s = reverse (trim_start cutset (reverse (trim_start cutset s)))

-- os.Stat of the destination: whether it is a directory.
abbrev pub is_directory : Outcome FileInfo → Outcome Bool
is_directory (ok info) = ok info.is_dir
is_directory (err e) = if is_not_exist e then ok false else err (wrapped "failed to stat" e)
is_directory panic = panic

module _ (os : Os) (web : Web os.World) where
  abbrev pub Run : Type 0 → Type 0
  Run A = Action os.World A

  abbrev named : Option (List ℕ) → List ℕ
  named none = []
  named (some s) = web.base (trim (codes "\"'; ") s)

  unfoldable pub filename_from_header : List ℕ → List ℕ
  unfolding after_key trim
  filename_from_header cd = if is_empty cd then [] else named (after_key (codes "filename=") cd)

  unfoldable pub dir_dest : List ℕ → String → String → Outcome String
  unfolding filename_from_header
  dir_dest cd src dest =
      if not (is_empty (filename_from_header cd))
      then ok (web.join dest (filename_from_header cd))
      else and_then (wrap "failed to parse URL" (web.url_path src)) λ path.
        ok (web.join dest (if is_empty path then codes "index.html" else web.path_base path))

  unfoldable pub validate : GetUrl → Outcome (Unit {0})
  validate g =
      if str_eq g.url ""
      then err (message "url is required")
      else if str_eq g.dest ""
      then err (message "dest is required")
      else elim (web.url_path g.url) [
        | ok path ↦ ok tt
        | err e ↦ err (message "invalid URL provided")
        | panic ↦ panic
      ]

  abbrev mode_value : GetUrl → ModeArg
  mode_value g = elim g.mode [ none ↦ text "" | some v ↦ text v ]

  unfoldable pub actual_dest : GetUrl → Response → os.World → Outcome String
  unfolding dir_dest
  actual_dest g response w = and_then (is_directory (os.stat g.dest w)) λ is_dir.
      if is_dir
      then wrap "failed to determine path from dest"
          (dir_dest response.content_disposition g.url g.dest)
      else ok g.dest

  unfoldable pub set_attributes : GetUrl → String → Run (Unit {0})
  set_attributes g path =
      if not (is_some g.mode) && str_eq g.owner "" && str_eq g.group "" then pure tt else (do
        uid ← read (get_uid os g.owner)
        gid ← read (get_gid os g.group)
        wrapping "failed to apply mode and IDs" (apply_mode_and_ids os path (mode_value g) uid gid))

  unfoldable pub apply : GetUrl → Run CommonResult
  unfolding actual_dest set_attributes
  apply g = do
    response ← wrapping "failed to get URL" (read (web.get g.url))
    if not response.is_ok then raise (message "unexpected status getting") else (do
      path ← read (actual_dest g response)
      wrapping "failed to create file" (os.create path)
      web.save path response.body
      set_attributes g path
      pure empty_result)
