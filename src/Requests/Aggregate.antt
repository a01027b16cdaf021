-- ===== src/Requests/Aggregate.antt =====
-- The listing of a hash at all peers calls its handler once, when every request has failed or has been
-- answered.

use suba_sync.Prelude.{str_eq}
use suba_sync.Prelude.Dict.{Dict}
use suba_sync.Directories.{Directories}
use suba_sync.Shares.{Shares}
use suba_sync.Requests.{Requests}
use suba_sync.Requests.HashListing.{HashListing}
use suba_sync.Requests.Kept.{Kept}
