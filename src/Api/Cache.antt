-- ===== src/Api/Cache.antt =====
-- internal/api/cache.go, but `SaveCacheToDisk`, which Friends has.
use open_friend_mc.Prelude.{none, String, ◌==◌, comparable_string, if◌then◌else◌}
use open_friend_mc.Api.Client.{Client, DiskCache}

-- What the directory holds: nothing that can be read, a file that is no such JSON, or a cache.
pub data CacheFile : Type 0 where
  unreadable bad_file : CacheFile
  found : DiskCache → CacheFile

adopt : CacheFile → Client → Client
adopt unreadable c = c
adopt bad_file c = c
adopt (found d) c = record c { friends_etag = d.friends_etag; friends_cache = d.friends_response }

unfoldable pub load_cache_from_disk : String → CacheFile → Client → Client
unfolding adopt
load_cache_from_disk dir file c = if dir == "" then c else adopt file (record c { cache_dir = dir })

unfoldable pub reset_cache : Client → Client
reset_cache c = record c {
  friends_etag = "";
  friends_cache = none;
  presence_etag = "";
  presence_cache = none;
}
