-- ===== src/Examples/Items.antt =====
-- A file of the client's account, copied to another name in its folder.
use storage_framework.Base.{true, ◌≡◌, ◌&&◌, ◌↔◌, refl, Option, some, [], ◌∷◌}
use storage_framework.Base.Text.{text, text_eq}
use storage_framework.Base.Common.{file, folder}
use storage_framework.Errors.StorageError.{default_error}
use storage_framework.Client.Listing.{finished}
use storage_framework.Client.Validate.Accepts.{IsWellFormed}
use storage_framework.Client.Accounts.{Account, Runtime, account_eq, details_eq, unless_gone}
use storage_framework.Client.Items.{Item, for_copy, begin_request, copy, account_of}
use storage_framework.Client.Items.Calls.{reaches, makes_sense, begin_request-reaches}
use storage_framework.Client.Items.Answers.{promised, answered, item_job_reply-answered}
use storage_framework.Examples.Validate.{parse, show, item}

abbrev account : Account
account = record {
  is_valid = true;
  details = record {
    bus_name = text "com.example";
    object_path = text "/1";
    id = 1;
    service_id = text "drive";
    display_name = text "me";
    provider_name = [];
    icon_name = [];
  };
}

abbrev a_file : Item
a_file = record { is_valid = true; md = item; account = account }

abbrev its_folder : Item
its_folder = record {
  is_valid = true;
  md = record {
    item_id = text "1";
    parent_ids = text "0" ∷ [];
    name = text "docs";
    etag = [];
    type = folder;
    metadata = [];
  };
  account = account;
}

abbrev runtime : Option Runtime
runtime = some (record { is_valid = true; error = default_error })

begin_request-reaches_example :
    reaches (begin_request (for_copy its_folder (text "b.txt") []) a_file runtime)
    ≡ true && (true && makes_sense (for_copy its_folder (text "b.txt") []) a_file)
begin_request-reaches_example =
    begin_request-reaches (for_copy its_folder (text "b.txt") []) a_file runtime

copies : reaches (begin_request (for_copy its_folder (text "b.txt") []) a_file runtime) ≡ true
unfolding reaches begin_request copy unless_gone account_of account_eq details_eq text_eq
copies = refl

item_job_reply-answered_example :
    (((answered parse show
          (for_copy its_folder (text "b.txt") [])
          a_file
          runtime
          true
          item
          (text "Item::copy()")).status
        ≡ finished)
      ↔ ((true ≡ true)
          × (promised (for_copy its_folder (text "b.txt") []) a_file file ≡ true)
          × IsWellFormed parse show item))
    × ((answered parse show
          (for_copy its_folder (text "b.txt") [])
          a_file
          runtime
          true
          item
          (text "Item::copy()")).announced
        ≡ (answered parse show
            (for_copy its_folder (text "b.txt") [])
            a_file
            runtime
            true
            item
            (text "Item::copy()")).status
          ∷ [])
    × ((answered parse show
            (for_copy its_folder (text "b.txt") [])
            a_file
            runtime
            true
            item
            (text "Item::copy()")).status
          ≡ finished
        → (answered parse show
            (for_copy its_folder (text "b.txt") [])
            a_file
            runtime
            true
            item
            (text "Item::copy()")).item
          ≡ record { is_valid = true; md = item; account = account })
item_job_reply-answered_example =
    item_job_reply-answered parse show (for_copy its_folder (text "b.txt") []) a_file runtime true
      item (text "Item::copy()") refl copies
