-- ===== src/Client/Jobs.antt =====
-- src/qt/internal/ItemJobImpl.cpp, VoidJobImpl.cpp and AccountsJobImpl.cpp: a job that waits for one
-- answer. `announced` are the values of the signal `statusChanged`, in order. The runtime is alive if
-- it is there and was not shut down.
use storage_framework.Base.{
  Bool, true, false, Option, none, some, List, [], ◌∷◌, ◌++◌, map, if◌then◌else◌,
}
use storage_framework.Base.Text.{Text, text}
use storage_framework.Base.Int.{ℤ}
use storage_framework.Errors.StorageError.{
  StorageError, with_message, runtime_destroyed, default_error,
}
use storage_framework.Client.Listing.{Status, loading, finished, failed, is_loading}
use storage_framework.Client.Validate.{ItemMetadata, DateTime, validate, file}
use storage_framework.Client.Accounts.{Account, AccountDetails, no_account, make_account}
use storage_framework.Client.Items.{Item}

gone : Text → StorageError
gone method = with_message runtime_destroyed (method ++ text ": Runtime was destroyed previously")

abbrev pub no_item : Item
no_item = record {
  is_valid = false;
  md = record { item_id = []; parent_ids = []; name = []; etag = []; type = file; metadata = [] };
  account = no_account;
}

pub record ItemJob : Type 0 where
  pub status : Status
  pub error : StorageError
  pub method : Text
  pub account : Account
  pub item : Item
  pub announced : List Status

module _ (parse_date : Text → DateTime) (number : ℤ → Text) where
  -- `ItemImpl::make_item`: an item, or what `validate` throws.
  unfoldable pub make_item : Text → ItemMetadata → Account → Option StorageError × Item
  make_item method md account =
      (validate parse_date number method md, record { is_valid = true; md = md; account = account })

  unfoldable pub start_item_job : Text → Account → ItemJob
  start_item_job method account = record {
    status = loading;
    error = default_error;
    method = method;
    account = account;
    item = no_item;
    announced = [];
  }

  unfoldable pub item_job_error : StorageError → ItemJob → ItemJob
  item_job_error e j = record j {
    status = failed;
    error = e;
    announced = j.announced ++ failed ∷ [];
  }

  unfoldable pub item_job_answer :
      Option StorageError → Option StorageError × Item → ItemJob → ItemJob
  unfolding item_job_error
  item_job_answer (some e) made j = item_job_error e j
  item_job_answer none (some e, item) j = item_job_error e j
  item_job_answer none (none, item) j = record j {
    status = finished;
    item = item;
    announced = j.announced ++ finished ∷ [];
  }

  -- `check` is `validate_` of the job: the error that it throws, if any.
  unfoldable pub item_job_reply :
      (ItemMetadata → Option StorageError) → Bool → ItemMetadata → ItemJob → ItemJob
  unfolding make_item item_job_answer gone
  item_job_reply check alive md j =
      if alive
      then item_job_answer (check md) (make_item j.method md j.account) j
      else item_job_error (gone j.method) j

pub record VoidJob : Type 0 where
  pub status : Status
  pub error : StorageError
  pub method : Text
  pub announced : List Status

unfoldable pub start_void_job : Text → VoidJob
start_void_job method = record {
  status = loading;
  error = default_error;
  method = method;
  announced = [];
}

-- A job that starts with an error announces it from the event loop.
unfoldable pub void_job_failed : StorageError → VoidJob
void_job_failed e = record { status = failed; error = e; method = []; announced = failed ∷ [] }

unfoldable pub void_job_error : StorageError → VoidJob → VoidJob
void_job_error e j = record j { status = failed; error = e; announced = j.announced ++ failed ∷ [] }

unfoldable pub void_job_reply : Bool → VoidJob → VoidJob
unfolding void_job_error gone
void_job_reply alive j =
    if alive
    then record j { status = finished; announced = j.announced ++ finished ∷ [] }
    else void_job_error (gone j.method) j

pub record AccountsJob : Type 0 where
  pub status : Status
  pub error : StorageError
  pub method : Text
  pub accounts : List Account
  pub announced : List Status

unfoldable pub start_accounts_job : Text → AccountsJob
start_accounts_job method = record {
  status = loading;
  error = default_error;
  method = method;
  accounts = [];
  announced = [];
}

-- `get_runtime_impl`, where the runtime is gone: announced while the job is loading only.
unfoldable pub lose_runtime : Text → AccountsJob → AccountsJob
unfolding gone
lose_runtime method j = record j {
  status = failed;
  error = gone method;
  announced = if is_loading j.status then j.announced ++ failed ∷ [] else j.announced;
}

unfoldable pub accounts_reply : Bool → List AccountDetails → AccountsJob → AccountsJob
unfolding lose_runtime make_account
accounts_reply alive details j =
    if alive
    then record j {
      status = finished;
      accounts = j.accounts ++ map make_account details;
      announced = j.announced ++ finished ∷ [];
    }
    else lose_runtime j.method j

unfoldable pub accounts_error : StorageError → AccountsJob → AccountsJob
accounts_error e j = record j { status = failed; error = e; announced = j.announced ++ failed ∷ [] }

is_finished : Status → Bool
is_finished finished = true
is_finished _ = false

unfoldable pub accounts : Bool → AccountsJob → List Account × AccountsJob
unfolding lose_runtime is_finished
accounts alive j =
    if alive
    then (if is_finished j.status then j.accounts else [], j)
    else ([], lose_runtime (text "AccountsJob::accounts()") j)
