-- ===== src/Examples/DeltaSends.antt =====
-- The theorems on the temporary files of the Delta Chat transport.
use delta_gateway_chat_woot.Base.{
  pos, starts_with, append, true, false, List, [], ◌∷◌, none, some, All, ◌≡◌, refl,
}
use delta_gateway_chat_woot.Errors.{ok, err, fatal_error}
use delta_gateway_chat_woot.Exec.{pure, raise}
use delta_gateway_chat_woot.Models.{Envelope}
use delta_gateway_chat_woot.Values.{
  Value, int, str, arr, arr_of, obj, nil, obj_of, dict_of, find, truthy, or_value, get_value,
  get_default, iterate,
}
use delta_gateway_chat_woot.Values.Text.{text_of}
use delta_gateway_chat_woot.World.{World}
use delta_gateway_chat_woot.Telegram.Prepare.{is_over_size_limit}
use delta_gateway_chat_woot.DeltaChat.Routing.{route_of}
use delta_gateway_chat_woot.DeltaChat.Extract.{
  int_of, normalize_view_type, resolve_delta_chat_viewtype,
}
use delta_gateway_chat_woot.DeltaChat.Transport.{
  Sending, Urls, Outside, Settings, Prepared, outside, checked, fetch, save_chunks,
  download_attachment, download_each,
}
use delta_gateway_chat_woot.DeltaChat.Transport.Send.{send_native}
use delta_gateway_chat_woot.DeltaChat.Transport.Files.{has}
use delta_gateway_chat_woot.DeltaChat.Transport.Leaks.{
  paths_onto, send_native-cleans, send_native-leaks,
}
use delta_gateway_chat_woot.Examples.{Log, calm, letter}
use delta_gateway_chat_woot.Examples.DeltaChats.{account}

abbrev urls : Urls
urls = record {
  hostname = λ u. some "files.example.org";
  with_base = λ u b. u;
  path_name = λ u. "file";
  suffix = λ n. ".bin";
  strip_slashes = λ u. u;
}

-- a service whose files have two chunks, and a core that does not send
abbrev service : Outside (World Log)
service = record {
  get = λ u. pure (record { status = 200; chunks = 10 ∷ 20 ∷ [] });
  write = λ p n. pure tt;
  temp_name = λ s. pure (append "/tmp/file" s);
  get_account = λ c. pure 1;
  get_contact_by_addr = λ a addr. pure none;
  create_contact = λ a addr name. pure 2;
  get_chat_by_contact = λ a c. pure none;
  create_chat = λ a c. pure 3;
  send_text = λ c t. raise fatal_error;
  send_file = λ c t p f v. raise fatal_error;
  post = λ u v. pure 200;
}

abbrev settings : Settings
settings = record {
  enable_native_deltachat_channel = true;
  chatwoot_base_url = "";
  chatwoot_upload_max_mb = 1;
  has_session = true;
}

abbrev small : Value
small = dict_of (("data_url", str "https://files.example.org/1") ∷ ("filename", str "1.bin") ∷ [])

abbrev large : Value
large = dict_of (("data_url", str "https://files.example.org/2") ∷ ("size", int (pos 9000000)) ∷ [])

abbrev with_files : List Value → Envelope
with_files files = record letter { payload = obj_of (("attachments", arr (arr_of files)) ∷ []) }

abbrev begun : Sending Log
begun = record { temp_files = []; world = calm }

abbrev downloaded : Sending Log
downloaded = record { temp_files = "/tmp/file.bin" ∷ []; world = calm }

abbrev file : Prepared
file = record { temp_path = "/tmp/file.bin"; filename = "1.bin"; viewtype = none }

has_attachments :
    (files : List Value)
    → get_value "attachments" (obj (with_files files).payload) ≡ ok (arr (arr_of files))
unfolding get_value get_default find
has_attachments files = refl

downloads : download_each urls service settings (small ∷ []) begun ≡ (ok (file ∷ []), downloaded)
unfolding download_each download_attachment fetch save_chunks outside checked is_over_size_limit
    get_value get_default find truthy or_value text_of resolve_delta_chat_viewtype
    normalize_view_type starts_with
downloads = refl

is_one : iterate (or_value (arr (arr_of (small ∷ []))) (arr nil)) ≡ ok (small ∷ [])
unfolding iterate or_value truthy
is_one = refl

is_two : iterate (or_value (arr (arr_of (small ∷ large ∷ []))) (arr nil)) ≡ ok (small ∷ large ∷ [])
unfolding iterate or_value truthy
is_two = refl

is_refused : checked urls service settings large ≡ err fatal_error
unfolding checked is_over_size_limit get_value get_default find truthy or_value int_of
is_refused = refl

send_native-cleans_example :
    All
      (λ p.
        has p.temp_path
          (send_native urls service settings
            (route_of account)
            (with_files (small ∷ []))
            "ann@example.org"
            "hello"
            begun).1.temp_files
        ≡ false)
      (file ∷ [])
send_native-cleans_example =
    send_native-cleans urls service settings (route_of account) (with_files (small ∷ []))
      "ann@example.org" "hello" begun 1 calm (arr (arr_of (small ∷ []))) (small ∷ []) (file ∷ [])
      downloaded refl (has_attachments (small ∷ [])) is_one downloads

send_native-leaks_example :
    (send_native urls service settings
        (route_of account)
        (with_files (small ∷ large ∷ []))
        "ann@example.org"
        "hello"
        begun
      ≡ (err fatal_error, downloaded))
    × (downloaded.temp_files ≡ paths_onto (file ∷ []) [])
send_native-leaks_example =
    send_native-leaks urls service settings (route_of account) (with_files (small ∷ large ∷ []))
      "ann@example.org" "hello" begun 1 calm (arr (arr_of (small ∷ large ∷ []))) (small ∷ []) []
      large fatal_error (file ∷ []) downloaded refl (has_attachments (small ∷ large ∷ [])) is_two
      downloads is_refused
