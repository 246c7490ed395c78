-- ===== src/Etcd.antt =====
-- `class etcd_helper` (src/libs/etcd/etcd_helper.hpp): reading and writing the configuration. The
-- client and the reply that it parses are another project's: an answer of the server is the map
-- that `GetAll` fills, or the exception that `Get` throws.
pub mod Laws
use hvbench.Base.{Bool, [], ◌∷◌, Option, Text, text_key, codes, if◌then◌else◌}
use hvbench.Base.Result.{Result, ok, reply_exception, or_fault, ◌>>=◌}
use hvbench.Base.Dict.{Dict, get_or}
use hvbench.External.Boost.{Boost}

abbrev pub KvPairs : Type 0
KvPairs = Dict Text Text

-- What the server answers to `Get(path)`; `none` is a `ReplyException`.
abbrev pub Server : Type 0
Server = Text → Option KvPairs

-- `get(etcd, path)`; `pairs[path]` is the empty text where the key is not there.
unfoldable pub get : Server → Text → Result Text
unfolding get_or
get etcd path = do pairs ← or_fault (etcd path) reply_exception; ok (get_or path [] pairs)

module _ (b : Boost) where
  -- `etcd_get(path, abs)` of a helper whose base path is `basep`.
  unfoldable pub etcd_get : Server → Text → Text → Bool → Result Text
  unfolding get
  etcd_get etcd basep path abs =
      get etcd (if abs then path else b.format (codes "%s/%s") (basep ∷ path ∷ []))

  -- `etcd_write(path, value, abs)`: the key and the value of the `Set` that it makes.
  unfoldable pub etcd_write : Text → Text → Text → Bool → Text × Text
  etcd_write basep path value abs =
      (if abs then b.format (codes "%s/%s") (basep ∷ path ∷ []) else path, value)
