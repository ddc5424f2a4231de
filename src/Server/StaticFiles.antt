-- ===== src/Server/StaticFiles.antt =====
-- src/server/static_files.rs: the embedded PWA. The embedded files and the guess of a media type are
-- parameters.
pub mod Paths
use pi_piper.Prelude.{String, ◌≡◌, Bool, true, false, ◌||◌, Option, none, some, ◌==◌, if◌then◌else◌}
use pi_piper.Prelude.Text.{trim_start_matches, is_empty}
use pi_piper.Server.Response.{Response, rejected, accepted}

-- The answer 200: its two headers and its body.
pub record Asset (B : Type 0) : Type 0 where
  pub content_type : String
  pub cache_control : String
  pub body : B

pub asset_path : String → String
asset_path uri_path =
    let path = trim_start_matches b'/' uri_path in if is_empty path then "index.html" else path

pub cache_control_of : String → String
cache_control_of path =
    if path == "sw.js" || path == "index.html" then "no-cache" else "public, max-age=3600"

module _ {B : Type 0} (get : String → Option B) (guess : String → String) where
  unfoldable pub handler : String → Response (Asset B)
  handler uri_path =
      let path = asset_path uri_path in
      elim (get path) [
        | none ↦ rejected 404 "not found"
        | some file ↦ accepted (record {
          content_type = guess path;
          cache_control = cache_control_of path;
          body = file;
        })
      ]
