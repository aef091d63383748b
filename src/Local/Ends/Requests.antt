-- ===== src/Local/Ends/Requests.antt =====
-- How the requests that the local provider serves end: src/local-provider/LocalProvider.cpp.
use storage_framework.Base.{false, ℕ, ◌+◌, ◌≤◌, Bool, true, ◌≡◌, refl}
use storage_framework.Base.Text.{Text}
use storage_framework.Base.Int.{ℤ}
use storage_framework.Local.Outcome.{Outcome, returns, throws, filesystem_error, unfinished}
use storage_framework.Local.FileSystem.{FileSystem}
use storage_framework.Local.Lawful.{IsBounded}
use storage_framework.Local.Steps.{M}
use storage_framework.Local.Guards.{invoke_async}
use storage_framework.Local.Operations.{
  list, lookup, metadata, create_folder, delete_item, move, copy, Request, list_of, metadata_of,
  delete_of, lookup_of, create_folder_of, move_of, copy_of, Reply, reply_with, serve,
}
use storage_framework.Local.Ends.{
  ends, after-ends, check-ends, throw_if-ends, valid-ends, sanitize-ends, throw_if_exists-ends,
  throw_if_root-ends, item_at-ends,
}
use storage_framework.Local.Ends.Copies.{copy-ends}

-- A client gets an answer: a value, or one of the provider's exceptions.
pub is_answered : {A : Type 0} → Outcome A → Bool
is_answered (returns a) = true
is_answered (throws e) = true
is_answered (filesystem_error e) = false
is_answered unfinished = false

module _ (fs : FileSystem) where
  answered :
      {A : Type 0} (method : Text) (x : Outcome A × fs.State)
      → ends x.0 ≡ true
      → is_answered (invoke_async fs method x).0 ≡ true
  unfolding invoke_async is_answered
  answered method (returns a, t) h = refl
  answered method (throws e, t) h = refl
  answered method (filesystem_error e, t) h = refl
  answered method (unfinished, t) h = absurd (cc)

  reply_answered :
      {A : Type 0} (method : Text) (f : A → Reply) (m : M fs.State A) (s : fs.State)
      → ends (m s).0 ≡ true
      → is_answered (invoke_async fs method (reply_with f m s)).0 ≡ true
  unfolding reply_with
  reply_answered method f m s h = answered method _ (after-ends _ _ _ h (λ _ _. refl))

  module _ (root : Text) (to_string : ℤ → Text) (format_utc : ℤ → Text)
      (mime_type : Text → Text) where
    list-ends :
        (id : Text) (s : fs.State)
        → ends (list fs to_string format_utc mime_type root id s).0 ≡ true
    unfolding list
    list-ends id s = after-ends _ _ _ (valid-ends fs root s _ _) (λ _ _.
        after-ends _ _ _ (check-ends _) (λ st _.
          after-ends _ _ _ (throw_if-ends _ _ s)
            (λ _ _. after-ends _ _ _ (check-ends _) (λ _ _. refl))))

    metadata-ends :
        (id : Text) (s : fs.State)
        → ends (metadata fs to_string format_utc mime_type root id s).0 ≡ true
    unfolding metadata
    metadata-ends id s =
        after-ends _ _ _ (valid-ends fs root s _ _)
          (λ _ _. item_at-ends fs root to_string format_utc mime_type _ _ s)

    lookup-ends :
        (id name : Text) (s : fs.State)
        → ends (lookup fs to_string format_utc mime_type root id name s).0 ≡ true
    unfolding lookup
    lookup-ends id name s = after-ends _ _ _ (valid-ends fs root s _ _) (λ _ _.
        after-ends _ _ _ (sanitize-ends fs root _ _) (λ _ _.
          after-ends _ _ _ (valid-ends fs root s _ _) (λ _ _.
            after-ends _ _ _ (item_at-ends fs root to_string format_utc mime_type _ _ s)
              (λ _ _. refl))))

    create_folder-ends :
        (id name : Text) (s : fs.State)
        → ends (create_folder fs to_string format_utc mime_type root id name s).0 ≡ true
    unfolding create_folder
    create_folder-ends id name s = after-ends _ _ _ (valid-ends fs root s _ _) (λ _ _.
        after-ends _ _ _ (sanitize-ends fs root _ _) (λ _ _.
          after-ends _ _ _ (throw_if_exists-ends fs root s _ _ _) (λ _ _.
            after-ends _ _ _ (check-ends _)
              (λ _ _. item_at-ends fs root to_string format_utc mime_type _ _ _))))

    delete_item-ends :
        (id : Text) (s : fs.State)
        → ends (delete_item fs to_string format_utc mime_type root id s).0 ≡ true
    unfolding delete_item
    delete_item-ends id s =
        after-ends _ _ _ (valid-ends fs root s _ _)
          (λ _ _. after-ends _ _ _ (throw_if_root-ends fs root s _ _) (λ _ _. check-ends _))

    move-ends :
        (id dir name : Text) (s : fs.State)
        → ends (move fs to_string format_utc mime_type root id dir name s).0 ≡ true
    unfolding move
    move-ends id dir name s = after-ends _ _ _ (valid-ends fs root s _ _) (λ _ _.
        after-ends _ _ _ (valid-ends fs root s _ _) (λ _ _.
          after-ends _ _ _ (sanitize-ends fs root _ _) (λ _ _.
            after-ends _ _ _ (throw_if_exists-ends fs root s _ _ _) (λ _ _.
              after-ends _ _ _ (throw_if_root-ends fs root s _ _) (λ _ _.
                after-ends _ _ _ (check-ends _)
                  (λ _ _. item_at-ends fs root to_string format_utc mime_type _ _ _))))))

    -- In a file system that refuses paths longer than its bound, in which names in a directory are longer
    -- than its own, each list, metadata, lookup, delete, create_folder, move and copy is answered by a value
    -- or by one of the provider's exceptions, if the fuel is at least the bound plus two: no copy goes on for ever, and no `filesystem_error` gets through.
    pub serve-is_answered :
        (fuel : ℕ) (request : Request) (s : fs.State)
        → IsBounded fs
        → fs.path_max + 2 ≤ fuel
        → is_answered (serve fs to_string format_utc mime_type fuel root request s).0 ≡ true
    unfolding serve
    serve-is_answered fuel (list_of id) s bounded enough =
        reply_answered _ _ (list fs to_string format_utc mime_type root id) s (list-ends id s)
    serve-is_answered fuel (metadata_of id) s bounded enough =
        reply_answered _ _ (metadata fs to_string format_utc mime_type root id) s
          (metadata-ends id s)
    serve-is_answered fuel (delete_of id) s bounded enough =
        reply_answered _ _ (delete_item fs to_string format_utc mime_type root id) s
          (delete_item-ends id s)
    serve-is_answered fuel (lookup_of id name) s bounded enough =
        reply_answered _ _ (lookup fs to_string format_utc mime_type root id name) s
          (lookup-ends id name s)
    serve-is_answered fuel (create_folder_of id name) s bounded enough =
        reply_answered _ _ (create_folder fs to_string format_utc mime_type root id name) s
          (create_folder-ends id name s)
    serve-is_answered fuel (move_of id dir name) s bounded enough =
        reply_answered _ _ (move fs to_string format_utc mime_type root id dir name) s
          (move-ends id dir name s)
    serve-is_answered fuel (copy_of id dir name) s bounded enough =
        reply_answered _ _ (copy fs to_string format_utc mime_type fuel root id dir name) s
          (copy-ends fs to_string format_utc mime_type bounded fuel root id dir name s enough)
