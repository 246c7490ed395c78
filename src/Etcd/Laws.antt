-- ===== src/Etcd/Laws.antt =====
-- What `etcd_get` reads back of a value that `etcd_write` wrote.
use hvbench.Base.{◌≡◌, ◌≢◌, [], ◌∷◌, some, Text, text_key}
use hvbench.External.Boost.{Boost}
use hvbench.Etcd.{Server}

-- A server after `Set(key, value)`: the key has the value, and all other keys what they had.
pub record IsWritten (key value : Text) (etcd etcd' : Server) : Type 0 where
  pub here : etcd' key ≡ some ((key, value) ∷ [])
  pub elsewhere : (path : Text) → path ≢ key → etcd' path ≡ etcd path
