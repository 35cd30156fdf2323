-- ===== src/Entry/Layout/Calls.antt =====
-- Lists of entries as libmaxminddb returns them, where it lays values out.
use max_mind_db_reader_pytho.Base.{suc, ◌≡◌, ◌∙◌, sym, inl, inr, [], length}
use max_mind_db_reader_pytho.Env.{Env, Entry, EntryDataList}
use max_mind_db_reader_pytho.Runtime.{World}
use max_mind_db_reader_pytho.Runtime.Outcome.{Ensures}
use max_mind_db_reader_pytho.Entry.{from_entry_data_list}
use max_mind_db_reader_pytho.Entry.Layout.Defs.{Data, layout, value}
use max_mind_db_reader_pytho.Entry.Layout.Leaves.{Intact, Converted}
use max_mind_db_reader_pytho.Entry.Layout.Convert.{from_entry_data_list-layout}

-- The list of an entry that could be read is the layout of a value.
abbrev pub LaysOut : Env → Type 0
LaysOut env =
    (e : Entry)
    → (env.mmdb_get_entry_data_list e).0 ≡ 0
    → (t : Data) × ((env.mmdb_get_entry_data_list e).1 ≡ layout t [])

pub Intact-from :
    (env : Env) (u v w : World) {P : Type 0}
    → u.error ≡ v.error
    → Intact env u w P
    → Intact env v w P
Intact-from env u v w same (inl (e, p)) = inl (e ∙ same, p)
Intact-from env u v w same (inr s) = inr s

pub Intact-until :
    (env : Env) (v w u : World) {P : Type 0}
    → u.error ≡ w.error
    → Intact env v w P
    → Intact env v u P
Intact-until env v w u same (inl (e, p)) = inl (same ∙ e, p)
Intact-until env v w u same (inr (n, s)) = inr ((λ e. n (sym same ∙ e)), s)

pub converted :
    (env : Env) (l : EntryDataList) (t : Data)
    → l ≡ layout t []
    → (w : World)
    → Ensures (Converted env w [] (value env t)) (from_entry_data_list env (suc (length l)) l w)
converted env l t e w = rw e (from_entry_data_list-layout env t [] w)
