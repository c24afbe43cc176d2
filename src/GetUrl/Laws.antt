-- ===== src/GetUrl/Laws.antt =====
-- Where the task `get_url` writes, and when it does not.
use sophons.Base.{◌≡◌, refl, false}
use sophons.Base.Action.{message, ok, err, ◌>>=◌}
use sophons.Os.{Os}
use sophons.GetUrl.{GetUrl, Response, Web, apply}

module _ (os : Os) (web : Web os.World) where
  -- Where the server does not answer with status 200, the task fails and nothing is written: a file
  -- that an earlier run has downloaded stays as it is.
  pub bad_status_keeps :
      (g : GetUrl) (w : os.World) (response : Response)
      → web.get g.url w ≡ ok response
      → response.is_ok ≡ false
      → apply os web g w ≡ (err (message "unexpected status getting"), w)
  unfolding apply ◌>>=◌
  bad_status_keeps g w response answered bad = simp (answered, bad) refl
