-- ===== src/Tests/StorageTests.antt =====
-- crates/sovalune-storage-client/src/repositories/project.rs and session.rs: runs.
use sovalune_core.Common.{◌≡◌, refl, none, List, [], ◌∷◌, Result, ok, err, arith, map}
use sovalune_core.Text.{Text, codes}
use sovalune_core.Json
use sovalune_core.Storage.{
  Message, CreateMessage, Tables, Int64, pos, negsuc, M, ◌>>=◌, ◌>>◌, oldest_first, newest_first,
  limit_to,
}
use sovalune_core.Storage.Projects
use sovalune_core.Storage.Sessions.{
  create_session, create_message, new_message, messages_of, get_messages, get_recent_messages,
}
use sovalune_core.Storage.History.{create_message-reads}

abbrev empty : Tables
empty = record { projects = []; sessions = []; messages = []; clock = 1; faults = [] }

abbrev said : Text → CreateMessage
said content = record {
  session_id = 2;
  role = codes "user";
  content = content;
  tool_call = none;
  request_id = 9;
}

-- project 1, its session 2, and two messages
abbrev chat : Tables
chat = record {
  projects =
      record { id = 1; name = codes "demo"; settings = Json.object_of []; created_at = 1 } ∷ [];
  sessions = record { id = 2; project_id = 1; created_at = 2 } ∷ [];
  messages = new_message (said (codes "one")) 3 ∷ new_message (said (codes "two")) 4 ∷ [];
  clock = 5;
  faults = [];
}

abbrev contents : Result (List Message) Text → List Text
contents (ok ms) = map (λ (m : Message). m.content) ms
contents (err e) = e ∷ []

built :
    (do
      Projects.create (record { name = codes "demo"; settings = none })
      create_session 1
      create_message (said (codes "one"))
      create_message (said (codes "two")))
      empty
    ≡ (ok (new_message (said (codes "two")) 4), chat)
unfolding messages_of ◌>>◌ Projects.create create_session create_message
built = refl

no_session :
    (create_message (record (said (codes "one")) { session_id = 7 }) chat).0
    ≡ err (codes "violates foreign key constraint")
unfolding messages_of create_message
no_session = refl

recent_of_three :
    contents ((do create_message (said (codes "three")); get_recent_messages 2 (pos 2)) chat).0
    ≡ codes "two" ∷ codes "three" ∷ []
unfolding messages_of ◌>>◌ create_message get_recent_messages
recent_of_three = refl

negative_limit :
    contents (get_messages 2 (negsuc 0) chat).0 ≡ codes "LIMIT must not be negative" ∷ []
unfolding messages_of get_messages
negative_limit = refl

cascade :
    (Projects.delete 1 chat).1
    ≡ record { projects = []; sessions = []; messages = []; clock = 6; faults = [] }
unfolding messages_of Projects.delete new_message
cascade = refl

create_message-reads_example :
    ((get_recent_messages 2 (pos 2) (create_message (said (codes "three")) chat).1).0
      ≡ ok (new_message (said (codes "two")) 4 ∷ new_message (said (codes "three")) 5 ∷ []))
    × ((get_messages 2 (pos 2) (create_message (said (codes "three")) chat).1).0
        ≡ (get_messages 2 (pos 2) chat).0)
unfolding messages_of Projects.has_row sovalune_core.Storage.Ordering.AllBefore new_message
    oldest_first limit_to newest_first
create_message-reads_example =
    create_message-reads chat (said (codes "three")) refl 1 refl (omega arith, (omega arith, tt))
      (omega arith)
