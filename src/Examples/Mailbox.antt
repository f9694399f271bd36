-- ===== src/Examples/Mailbox.antt =====
-- The theorems on the mail file system, after one file was made.
use uwufs.Base.{ℕ, refl, List, [], ◌∷◌}
use uwufs.Directory.{same_text}
use uwufs.Mail.{FakeFilesystem, search_from, search_file, spam_mail_create, mounted}
use uwufs.Mail.Session.{IsSound, Reach, here, next, create, Reach-IsSound}

abbrev path_a : List ℕ
path_a = b'/' ∷ b'a' ∷ []

abbrev with_a : FakeFilesystem
with_a = (spam_mail_create path_a (mounted [])).1

after_create : Reach (mounted []) with_a
unfolding search_file search_from same_text
after_create = next here (create path_a (mounted []) refl)

Reach-IsSound_example : IsSound with_a
Reach-IsSound_example = Reach-IsSound [] after_create
