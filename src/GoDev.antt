-- ===== src/GoDev.antt =====
-- pkg/godevclient.go: the current stable Go release. The HTTP exchange and `json.Unmarshal` are
-- arguments; the release list and the choice of the maximum are the source's.
pub mod Maximum
use github_update_go_watcher.Common.{
  ℕ, Bool, true, false, not, ◌||◌, List, [], ◌∷◌, Option, none, some, Text, bytes, Result, ok, err,
  failed, ◌==◌, ◌=?◌, if◌then◌else◌,
}
use github_update_go_watcher.Version.{Version, zero_version, parse_go_release, less}

pub record GoDevRelease : Type 0 where
  pub version : Text
  pub stable : Bool

-- The request fails, or there is a response: its status, and its body unless the read fails.
pub data Exchange : Type 0 where
  no_response : Exchange
  response : ℕ → Option Text → Exchange

-- One round of the loop: an empty `raw` marks that nothing was found so far.
unfoldable pub pick : Version → GoDevRelease → Version
pick max r = if not r.stable then max else elim (parse_go_release r.version) [
  | err e ↦ max
  | ok v ↦ if max.raw == [] || less max v then v else max
]

unfoldable pub max_release : Version → List GoDevRelease → Version
max_release max [] = max
max_release max (r ∷ rs) = max_release (pick max r) rs

-- What the client makes of the release list.
unfoldable pub stable_of : List GoDevRelease → Result Version
stable_of releases =
    let max = max_release zero_version releases in if max.raw == [] then err failed else ok max

module _ {E : Type 0} (get : E → Exchange × E) (unmarshal : Text → Option (List GoDevRelease)) where
  read_exchange : Exchange → Result Version
  read_exchange no_response = err failed
  read_exchange (response status none) = err failed
  read_exchange (response status (some body)) =
      if not (status =? 200)
      then err failed
      else elim (unmarshal body) [ none ↦ err failed | some releases ↦ stable_of releases ]

  unfoldable pub latest_stable : E → Result Version × E
  unfolding read_exchange
  latest_stable e = let (exchange, e') = get e in (read_exchange exchange, e')

abbrev pub default_go_dev_url : Text
default_go_dev_url = bytes "https://go.dev/dl/?mode=json"

-- `NewGoDevClient`, over the GET requests of its HTTP client.
unfoldable pub new_go_dev_client :
    {E : Type 0}
    → (Text → E → Exchange × E)
    → (Text → Option (List GoDevRelease))
    → Text
    → E
    → Result Version × E
new_go_dev_client get unmarshal url = latest_stable (get url) unmarshal
