-- ===== src/Sql/Datasource/Address.antt =====
-- What a data source's URL says.
use agenthub_skill_runtime.Base.{
  ℕ, ◌<◌, ◌≡◌, refl, sym, ◌∙◌, true, false, ◌||◌, [], ◌∷◌, ◌++◌, Bytes, codes, eqb, eqb→eq,
  contains_byte, all, All-append, ◌==◌, ==_iff, if◌then◌else◌, Bool-cases, inl, inr, arith,
}
use agenthub_skill_runtime.Base.Decimal.{is_digit, itoa, itoa-IsDigits}
use agenthub_skill_runtime.Http.Template.{is_unreserved}
use agenthub_skill_runtime.Sql.Datasource.{
  DatasourceConfig, escape_but, userinfo_set, host_set, path_set, join_host_port, rooted,
  escaped_path, datasource_dsn,
}
use agenthub_skill_runtime.Sql.Datasource.Escaping.{
  AreBytes, unescape, unescape-escape_but, is_escaped, escape_but-IsEscaped, escape_but-kept,
  escape_but-percent, all-weaken, avoids, userinfo-avoids, host-avoids, path-avoids,
}

-- The parts of a URL: what they read as, and that none holds a byte that ends it.
pub record Says (ds : DatasourceConfig) (dsn : Bytes) : Type 0 where
  pub user : Bytes
  pub password : Bytes
  pub authority : Bytes
  pub path : Bytes
  pub written :
      dsn ≡ codes "postgres://" ++ (user ++ (b':' ∷ (password ++ (b'@' ∷ (authority ++ path)))))
  pub user_read : unescape user ≡ ds.db_user
  pub password_read : unescape password ≡ ds.db_password
  pub host_read : unescape authority ≡ join_host_port ds.host (itoa ds.port)
  pub database_read : unescape path ≡ rooted ds.database
  pub user_closed : all (avoids (codes "@/:?#")) user ≡ true
  pub password_closed : all (avoids (codes "@/:?#")) password ≡ true
  pub authority_closed : all (avoids (codes "@/?#")) authority ≡ true
  pub path_closed : all (avoids (codes "?#")) path ≡ true

digits-AreBytes : (s : Bytes) → all is_digit s ≡ true → AreBytes s
digits-AreBytes [] h = tt
digits-AreBytes (c ∷ s) h = (ground arith, digits-AreBytes s (ground arith))

join_host_port-AreBytes :
    (host : Bytes) (port : ℕ) → AreBytes host → AreBytes (join_host_port host (itoa port))
join_host_port-AreBytes host port h =
    let digits = digits-AreBytes (itoa port) (itoa-IsDigits port) in
    elim (Bool-cases (contains_byte host b':')) [
      | inl v6 ↦
          rw (v6, if◌then◌else◌)
            (
              omega arith,
              All-append (λ (c : ℕ). c < 256) host _ h (omega arith, (omega arith, digits)),
            )
      | inr v4 ↦
          rw (v4, if◌then◌else◌) (All-append (λ (c : ℕ). c < 256) host _ h (omega arith, digits))
    ]

rooted-AreBytes : (s : Bytes) → AreBytes s → AreBytes (rooted s)
rooted-AreBytes [] h = tt
rooted-AreBytes (c ∷ s) h = elim (Bool-cases (c == b'/')) [
  | inl e ↦ rw (e, if◌then◌else◌) h
  | inr e ↦ rw (e, if◌then◌else◌) (omega arith, h)
]

rooted-other : (c : ℕ) (s : Bytes) → (c == b'/') ≡ false → rooted (c ∷ s) ≡ b'/' ∷ c ∷ s
rooted-other c s e = rw (e, if◌then◌else◌)

escape_but-slash : (s : Bytes) → escape_but path_set (b'/' ∷ s) ≡ b'/' ∷ escape_but path_set s
unfolding contains_byte
escape_but-slash s = escape_but-kept path_set b'/' s refl

rooted-escape_but_other :
    (c : ℕ) (s : Bytes)
    → (c == b'/') ≡ false
    → rooted (escape_but path_set (c ∷ s)) ≡ b'/' ∷ escape_but path_set (c ∷ s)
rooted-escape_but_other c s e = elim (Bool-cases (is_unreserved c || contains_byte path_set c)) [
  | inl kept ↦ rw (escape_but-kept path_set c s kept) (rooted-other c (escape_but path_set s) e)
  | inr other ↦ rw (escape_but-percent path_set c s other) refl
]

rooted-escape_but : (s : Bytes) → rooted (escape_but path_set s) ≡ escape_but path_set (rooted s)
unfolding escape_but
rooted-escape_but [] = refl
rooted-escape_but (c ∷ s) = elim (Bool-cases (c == b'/')) [
  | inl e ↦ let same = (==_iff c b'/').0 e in rw same (rw (escape_but-slash s) refl)
  | inr e ↦ rw (rooted-other c s e) (rooted-escape_but_other c s e ∙ sym (escape_but-slash (c ∷ s)))
]

path_of_escape :
    (database : Bytes)
    → AreBytes database
    → let path = rooted (escape_but path_set database) in
      (unescape path ≡ rooted database) × (all (avoids (codes "?#")) path ≡ true)
unfolding contains_byte
path_of_escape database h =
    let bytes = rooted-AreBytes database h in
    rw (rooted-escape_but database) (
      unescape-escape_but path_set refl (rooted database) bytes,
      all-weaken (is_escaped path_set) (avoids (codes "?#")) path-avoids
          (escape_but path_set (rooted database))
          (escape_but-IsEscaped path_set (rooted database) bytes),
    )

path_said :
    (database : Bytes)
    → AreBytes database
    → let path = rooted (escaped_path database) in
      (unescape path ≡ rooted database) × (all (avoids (codes "?#")) path ≡ true)
unfolding unescape contains_byte
path_said database h = elim (Bool-cases (eqb database (codes "*"))) [
  | inl star ↦ rw (star, if◌then◌else◌, eqb→eq database (codes "*") star) (refl, refl)
  | inr other ↦ rw (other, if◌then◌else◌) (path_of_escape database h)
]

-- If the fields are bytes, then the URL of a data source, cut at its first @, / and :, reads as its
-- user, its password, its host and port, and its database: no byte of one part can end it or begin
-- another. So a password, say, cannot send the connection to another host.
pub datasource_dsn-Says :
    (ds : DatasourceConfig)
    → AreBytes ds.db_user
    → AreBytes ds.db_password
    → AreBytes ds.host
    → AreBytes ds.database
    → Says ds (datasource_dsn ds)
unfolding datasource_dsn contains_byte
datasource_dsn-Says ds hu hp hh hd =
    let host = join_host_port-AreBytes ds.host ds.port hh in
    let (database_read, path_closed) = path_said ds.database hd in
    record {
      user = escape_but userinfo_set ds.db_user;
      password = escape_but userinfo_set ds.db_password;
      authority = escape_but host_set (join_host_port ds.host (itoa ds.port));
      path = rooted (escaped_path ds.database);
      written = refl;
      user_read = unescape-escape_but userinfo_set refl ds.db_user hu;
      password_read = unescape-escape_but userinfo_set refl ds.db_password hp;
      host_read = unescape-escape_but host_set refl (join_host_port ds.host (itoa ds.port)) host;
      database_read = database_read;
      user_closed =
          all-weaken (is_escaped userinfo_set) _ userinfo-avoids
            (escape_but userinfo_set ds.db_user) (escape_but-IsEscaped userinfo_set ds.db_user hu);
      password_closed =
          all-weaken (is_escaped userinfo_set) _ userinfo-avoids
            (escape_but userinfo_set ds.db_password)
            (escape_but-IsEscaped userinfo_set ds.db_password hp);
      authority_closed =
          all-weaken (is_escaped host_set) _ host-avoids
            (escape_but host_set (join_host_port ds.host (itoa ds.port)))
            (escape_but-IsEscaped host_set (join_host_port ds.host (itoa ds.port)) host);
      path_closed = path_closed;
    }
