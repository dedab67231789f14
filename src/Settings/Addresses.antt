-- ===== src/Settings/Addresses.antt =====
-- The three databases of Redis have three addresses.
use answer_service.Base.{◌≡◌, true, ◌++◌, arith}
use answer_service.Base.Int.{ℤ, pos, pos_part}
use answer_service.Base.Text.{Text, text}
use answer_service.Settings.Decimals.{show_ℤ}
use answer_service.Settings.{RedisConfig, redis_uri, address, credentials, is_db}

-- The addresses begin with the scheme, the user and the password.
abbrev pub CarriesCredentials : RedisConfig → Type 0
CarriesCredentials c =
    (n : ℤ)
    → redis_uri c n
      ≡ text "redis://"
        ++ (credentials c.user c.password ++ (address c.host c.port ++ (text "/" ++ show_ℤ n)))

-- A database index that the loader accepts is a natural number.
db_index : (n : ℤ) → is_db n ≡ true → n ≡ pos (pos_part n)
db_index n h = ground arith
