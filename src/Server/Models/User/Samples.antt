-- ===== src/Server/Models/User/Samples.antt =====
-- A user and a reader of addresses, for the runs of the other modules.
use umewarden.Prelude.{none, some, []}
use umewarden.Prelude.Int.{pos}
use umewarden.Prelude.Text.{codes}
use umewarden.Server.Db.{User}
use umewarden.Server.Models.User
use umewarden.Server.Models.User.{Reader}

-- every address is valid, and has no upper case
abbrev pub lenient : Reader
lenient = record {
  to_lowercase = λ t. t;
  email_domain = λ t. some t;
  parse_url = λ t. some (record { path = codes "/"; domain = some t; query_string = none });
}

abbrev pub someone : User
someone = User.new lenient 0 1 [] (codes "stamp") (pos 1) (codes "a@b.c") none
