-- ===== src/Examples/Listing.antt =====
-- Listings whose items are numbers: 0 is refused.
use storage_framework.Base.{
  ℕ, true, ◌≡◌, ◌==◌, arith, refl, if◌then◌else◌, Option, none, some, List, [], ◌∷◌, ◌++◌,
}
use storage_framework.Base.Text.{Text, text}
use storage_framework.Errors.StorageError.{StorageError, no_error, logic_error, with_message}
use storage_framework.Client.Listing.{
  ListJob, finished, start, first_error, page_reply, deliver_page,
}
use storage_framework.Client.Listing.Pages.{
  Session, Event, replies, announced, delivered, fetches, is_open, step, run, IsSound,
  run-listing-IsSound, listing, read_pages, items_of, read_pages-delivered,
}
use storage_framework.Client.Listing.Replies.{
  Answer, take_all, take_all-IsTold, IsTold, list_reply-effects,
}
use storage_framework.Client.Listing.Replies

abbrev refusal : StorageError
refusal = with_message logic_error (text "no")

abbrev accept : ℕ → Option StorageError
accept n = if n == 0 then some refusal else none

abbrev two_pages : List (Event ℕ)
two_pages = replies true (1 ∷ 2 ∷ []) (text "next") ∷ replies true (3 ∷ []) [] ∷ []

abbrev or_start : Option (Session ℕ) → Session ℕ
or_start none = listing accept (text "list")
or_start (some s) = s

abbrev listed : Session ℕ
listed = or_start (run accept (some (listing accept (text "list"))) two_pages)

run-listing-IsSound_example : IsSound accept listed
unfolding run step start page_reply deliver_page first_error fetches is_open
run-listing-IsSound_example = run-listing-IsSound accept (text "list") listed two_pages refl

abbrev pages : List (List ℕ × Text)
pages = (1 ∷ 2 ∷ [], text "next") ∷ (3 ∷ [], []) ∷ []

abbrev fresh : ListJob ℕ
fresh = start accept (text "list") 2

read_pages-delivered_example :
    ((read_pages accept fresh pages).status ≡ finished)
    × (delivered (read_pages accept fresh pages).effects
        ≡ delivered fresh.effects ++ items_of accept pages)
unfolding start first_error
read_pages-delivered_example =
    read_pages-delivered accept fresh pages refl (refl, (refl, (refl, refl)))

abbrev first : Answer ℕ
first = Replies.replies true 7

abbrev second : Answer ℕ
second = Replies.replies true 0

take_all-IsTold_example :
    IsTold accept
      (take_all accept fresh (first ∷ second ∷ []))
      (delivered fresh.effects)
      (first ∷ second ∷ [])
unfolding start announced
take_all-IsTold_example = take_all-IsTold accept fresh first (second ∷ []) refl refl refl

thrown : (md : ℕ) (e : StorageError) → accept md ≡ some e → e.type ≡ no_error → ⊥
unfolding with_message
thrown md e h t = ground arith
