-- ===== src/SqlBinding/Examples.antt =====
-- A statement with two parameters, and quoted question marks.
use tokeninsights.Prelude.{codes, ◌≡◌, refl, none}
use tokeninsights.Processor.Snapshot.{decimal}
use tokeninsights.SqlBinding.{bind, bind_from}
use tokeninsights.SqlBinding.Numbered.{pieces, numbered, bind-numbered}

bound :
    bind (codes "SELECT '?', 'it''s ?', \"?\"\"?\", ? WHERE value=?")
    ≡ codes "SELECT '?', 'it''s ?', \"?\"\"?\", $1 WHERE value=$2"
unfolding bind bind_from decimal
bound = refl

bind-numbered_example : bind (codes "a='?' b=?") ≡ numbered 0 (pieces none (codes "a='?' b=?"))
bind-numbered_example = bind-numbered (codes "a='?' b=?")
