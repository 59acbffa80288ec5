-- ===== src/DevTool/Records.antt =====
-- examples/dev-tool/main.go: the history of requests.
pub mod History
use mitm_proxy.Base.{
  ℕ, ◌-◌, Bool, ◌||◌, List, [], ◌∷◌, ◌++◌, Option, none, some, ltb, if◌then◌else◌, length, drop,
}
use mitm_proxy.Text.{Bytes, is_empty, to_lower, contains}
use mitm_proxy.DevTool.Rules.{ℤ, pos, negsuc}

-- Times are in nanoseconds; a request time of `none` is the zero time.
pub record RequestRecord : Type 0 where
  pub id : Bytes
  pub timestamp : ℕ
  pub request_text : Bytes
  pub response_text : Bytes
  pub request_time : Option ℕ
  pub duration : Bytes

-- The limit on the history. Below 0 the slice begins behind its end, and the program stops: `none`.
unfoldable pub limited : ℤ → List RequestRecord → Option (List RequestRecord)
limited (pos m) l = some (if ltb m (length l) then drop (length l - m) l else l)
limited (negsuc m) l = none

unfoldable pub add_record : ℤ → RequestRecord → List RequestRecord → Option (List RequestRecord)
add_record max r l = limited max (l ++ (r ∷ []))

unfoldable pub has_text : Bytes → RequestRecord → Bool
has_text query r =
    contains (to_lower r.request_text) query || contains (to_lower r.response_text) query

unfoldable pub found : Bytes → List RequestRecord → List RequestRecord
found query [] = []
found query (r ∷ l) = let rest = found query l in if has_text query r then r ∷ rest else rest

-- `searchRequests`
unfoldable pub search_requests : Bytes → List RequestRecord → List RequestRecord
search_requests query l = if is_empty query then l else found (to_lower query) l

-- `/api/clear-requests`
unfoldable pub clear_requests : List RequestRecord → List RequestRecord
clear_requests l = []
