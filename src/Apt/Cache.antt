-- ===== src/Apt/Cache.antt =====
-- `handleUpdate` of pkg/exec/apt.go: when the package lists are refreshed.
use sophons.Base.{
  ℕ, ◌-◌, ◌*◌, ◌^◌, Bool, true, false, not, ◌||◌, ◌&&◌, Option, none, some, ◌==◌, ltb, is_some,
  if◌then◌else◌,
}
use sophons.Base.Action.{
  message, wrapped, is_not_exist, Outcome, ok, err, panic, Action, read, pure, ◌>>=◌, ◌>>◌,
}
use sophons.Apt.{Apt, AptClient}

-- A time.Time. `none` is the zero time, which no file has.
abbrev pub Time : Type 0
Time = Option ℕ

abbrev same_time : Time → ℕ → Bool
same_time none after = false
same_time (some before) after = before == after

abbrev is_true : Option Bool → Bool
is_true none = false
is_true (some b) = b

-- The time of the cache: `none` where it does not exist.
abbrev pub found : Outcome ℕ → Outcome Time
found (ok t) = ok (some t)
found (err e) =
    if is_not_exist e then ok none else err (wrapped "failed to check cache last refresh time" e)
found panic = panic

-- What the second Stat of the first branch gives.
abbrev pub after_create : Time → ℕ → Outcome ℕ → Outcome (Bool × Time)
after_create before now (ok t) = ok (not (same_time before t), some t)
after_create before now (err e) =
    if is_not_exist e
    then ok (true, some now)
    else err (wrapped "failed to check cache after update" e)
after_create before now panic = panic

-- What the second Stat of the second branch gives.
abbrev pub after_refresh : Time → Outcome ℕ → Outcome (Bool × Time)
after_refresh before (ok t) = ok (not (same_time before t), some t)
after_refresh before (err e) =
    if is_not_exist e
    then err (message "cache directory disappeared after update")
    else err (wrapped "failed to check cache after update" e)
after_refresh before panic = panic

-- time.Since(cacheInfo.ModTime()).Seconds() > float64(*a.CacheValidTime). Where there is no
-- cacheInfo, the call of its method panics.
abbrev pub stale : Option ℕ → Time → ℕ → Outcome Bool
stale none cache now = ok false
stale (some valid) none now = panic
stale (some valid) (some t) now = ok (ltb (valid * 10 ^ 9) (now - t))

abbrev or_epoch : Time → Time
or_epoch none = some 0
or_epoch (some t) = some t

module _ {W : Type 0} (client : AptClient W) where
  unfoldable pub create_cache : Time → Action W (Bool × Time)
  create_cache before = do
    client.check_for_updates
    read (λ w. after_create before (client.now w) (client.lists_mod_time w))

  unfoldable pub refresh_cache : Time → Action W (Bool × Time)
  refresh_cache before = do
    client.check_for_updates
    read (λ w. after_refresh before (client.lists_mod_time w))

  -- UpdateCache, or else whether the cache is too old.
  unfoldable pub must_refresh : Apt → Time → W → Outcome Bool
  must_refresh a cache w =
      if is_true a.update_cache then ok true else stale a.cache_valid_time cache (client.now w)

  unfoldable pub handle_update : Apt → Action W (Bool × Time)
  unfolding create_cache refresh_cache must_refresh
  handle_update a = do
    cache ← read (λ w. found (client.lists_mod_time w))
    if not (is_some cache) && (is_true a.update_cache || is_some a.cache_valid_time)
        then create_cache cache
        else (do
          refresh ← read (must_refresh a cache)
          if refresh then refresh_cache cache else pure (false, or_epoch cache))
