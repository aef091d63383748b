-- ===== src/ClientV1/Future.antt =====
-- What is reported to a `QFutureInterface`, in order: include/unity/storage/qt/client/internal/make_future.h.
use storage_framework.Base.{Bool, true, false, List, [], ◌∷◌}
use storage_framework.ClientV1.Exceptions.{StorageException}

pub data Report (A : Type 0) : Type 0 where
  exception : StorageException → Report A
  result : A → Report A
  finished : Report A

module _ {A : Type 0} where
  abbrev pub is_finished : List (Report A) → Bool
  is_finished [] = false
  is_finished (finished ∷ rs) = true
  is_finished (r ∷ rs) = is_finished rs

  unfoldable pub make_ready_future : A → List (Report A)
  make_ready_future a = result a ∷ finished ∷ []

  unfoldable pub make_exceptional_future : StorageException → List (Report A)
  make_exceptional_future e = exception e ∷ finished ∷ []
