-- ===== src/Client/Listing.antt =====
-- The jobs that deliver items: src/qt/internal/ItemListJobImpl.cpp, MultiItemJobImpl.cpp,
-- MultiItemListJobImpl.cpp and ListJobImplBase.cpp.
pub mod Pages
pub mod Replies
use storage_framework.Base.{
  ℕ, ◌-◌, Bool, true, false, not, ◌&&◌, ◌≡◌, Option, none, some, List, [], ◌∷◌, ◌++◌, if◌then◌else◌,
  ◌==◌, is_empty, checked,
}
use storage_framework.Base.Text.{Text, text}
use storage_framework.Errors.StorageError.{
  StorageError, ErrorType, no_error, with_message, runtime_destroyed, default_error,
}

-- `failed` is `ItemListJob::Status::Error`.
pub data Status : Type 0 where
  loading finished failed : Status

abbrev pub is_loading : Status → Bool
is_loading loading = true
is_loading _ = false

-- The signals of the public instance, and the call for the next page.
pub data Effect (Md : Type 0) : Type 0 where
  items_ready : List Md → Effect Md
  status_changed : Status → Effect Md
  fetch_next : Text → Effect Md

-- An item is the metadata it is made of.
pub record ListJob (Md : Type 0) : Type 0 where
  pub status : Status
  pub error : StorageError
  pub method : Text
  pub replies_remaining : ℕ
  pub effects : List (Effect Md)

-- `accept` is `validate_` followed by `make_item`: the error that one of them throws, if any.
module _ {Md : Type 0} (accept : Md → Option StorageError) where
  unfoldable pub start : Text → ℕ → ListJob Md
  unfolding default_error
  start method replies = record {
    status = loading;
    error = default_error;
    method = method;
    replies_remaining = replies;
    effects = [];
  }

  -- A job that starts with an error, or that is empty, announces it from the event loop.
  unfoldable pub start_failed : StorageError → ListJob Md
  start_failed e = record {
    status = failed;
    error = e;
    method = [];
    replies_remaining = 0;
    effects = status_changed failed ∷ [];
  }

  unfoldable pub start_empty : ListJob Md
  unfolding default_error
  start_empty = record {
    status = finished;
    error = default_error;
    method = [];
    replies_remaining = 0;
    effects = status_changed finished ∷ [];
  }

  unfoldable pub fail : ListJob Md → StorageError → ListJob Md
  fail j e = record j {
    status = failed;
    error = e;
    effects = j.effects ++ status_changed failed ∷ [];
  }

  unfoldable pub runtime_gone : ListJob Md → StorageError
  unfolding with_message
  runtime_gone j =
      with_message runtime_destroyed (j.method ++ text ": Runtime was destroyed previously")

  unfoldable pub first_error : List Md → Option StorageError
  first_error [] = none
  first_error (md ∷ mds) = elim (accept md) [ some e ↦ some e | none ↦ first_error mds ]

  -- `process_reply` of MultiItemListJobImpl: a page, and the token of the next.
  unfoldable pub deliver_page : ListJob Md → List Md → Text → ListJob Md
  deliver_page j mds token =
      if is_empty token
      then (record j {
        status = finished;
        effects = j.effects ++ (items_ready mds ∷ status_changed finished ∷ []);
      })
      else (record j { effects = j.effects ++ (items_ready mds ∷ fetch_next token ∷ []) })

  unfoldable pub page_reply : ListJob Md → Bool → List Md → Text → ListJob Md
  unfolding fail runtime_gone deliver_page
  page_reply j runtime mds token = elim j.status [
    | loading ↦
        if not runtime
        then fail j (runtime_gone j)
        else elim (first_error mds) [ some e ↦ fail j e | none ↦ deliver_page j mds token ]
    | _ ↦ j
  ]

  -- Its `process_error`, which asserts that the job is loading.
  unfoldable pub page_error : Bool → ListJob Md → StorageError → Option (ListJob Md)
  unfolding fail
  page_error asserts j e = checked asserts (is_loading j.status) (fail j e)

  -- `process_reply` of MultiItemJobImpl: one of the replies it was made with.
  unfoldable pub deliver_one : ListJob Md → Md → ListJob Md
  deliver_one j md =
      if j.replies_remaining == 0
      then (record j {
        status = finished;
        effects = j.effects ++ (items_ready (md ∷ []) ∷ status_changed finished ∷ []);
      })
      else (record j { effects = j.effects ++ (items_ready (md ∷ []) ∷ []) })

  unfoldable pub one_reply : ListJob Md → Bool → Md → ListJob Md
  unfolding fail runtime_gone deliver_one
  one_reply j runtime md =
      let k : ListJob Md = record j { replies_remaining = j.replies_remaining - 1 } in
      elim j.status [
        | loading ↦
            if not runtime
            then fail k (runtime_gone k)
            else elim (accept md) [ some e ↦ fail k e | none ↦ deliver_one k md ]
        | _ ↦ j
      ]

  unfoldable pub one_error : ListJob Md → StorageError → ListJob Md
  unfolding fail
  one_error j e = elim j.status [ loading ↦ fail j e | _ ↦ j ]

  -- `process_reply` of ItemListJobImpl: the items that are made, with the last error beside them.
  unfoldable pub made : List Md → List Md
  made [] = []
  made (md ∷ mds) = elim (accept md) [ some e ↦ made mds | none ↦ md ∷ made mds ]

  unfoldable pub last_error : StorageError → List Md → StorageError
  last_error e [] = e
  last_error e (md ∷ mds) = elim (accept md) [ some x ↦ last_error x mds | none ↦ last_error e mds ]

  unfoldable pub status_of : ErrorType → Status
  status_of no_error = finished
  status_of _ = failed

  unfoldable pub list_reply : ListJob Md → Bool → List Md → ListJob Md
  unfolding fail runtime_gone status_of
  list_reply j runtime mds =
      let e : StorageError = last_error j.error mds in
      let s : Status = status_of e.type in
      if not runtime then fail j (runtime_gone j) else record j {
        status = s;
        error = e;
        effects = j.effects ++ (items_ready (made mds) ∷ status_changed s ∷ []);
      }

  unfoldable pub list_error : ListJob Md → StorageError → ListJob Md
  unfolding fail
  list_error j e = fail j e
