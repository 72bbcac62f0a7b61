-- ===== src/Checker/Taxonomy.antt =====
-- checker/error_taxonomy.go (the categories and their hints) and IsUDPProto of checker/target.go.
-- `to_lower` is the strings.ToLower of Go's Unicode tables. A text of the bot is a list of
-- characters.
use xray_checker_tg_bot.Base.{
  Text, codes, ℤ, pos, negsuc, Bool, true, false, ◌||◌, eqt, trim_space, ◌==◌, if◌then◌else◌,
}

-- ErrorCategory
pub data ErrorCategory : Type 0 where
  cat_none cat_timeout cat_conn_refused cat_conn_reset cat_tls_error cat_dns_error cat_http_4xx
        cat_http_5xx cat_unknown :
      ErrorCategory

-- The conversion of an integer; the numbers outside the constants are handled as the last one.
unfoldable pub category_of : ℤ → ErrorCategory
category_of (negsuc n) = cat_unknown
category_of (pos n) =
    if n == 0
    then cat_none
    else if n == 1
    then cat_timeout
    else if n == 2
    then cat_conn_refused
    else if n == 3
    then cat_conn_reset
    else if n == 4
    then cat_tls_error
    else if n == 5
    then cat_dns_error
    else if n == 6
    then cat_http_4xx
    else if n == 7
    then cat_http_5xx
    else cat_unknown

-- FormatSoftHint
unfoldable pub format_soft_hint : ErrorCategory → Bool → Text
format_soft_hint cat_timeout true = codes "таймаут UDP/QUIC (возможна блокировка или сброс пакетов)"
format_soft_hint cat_timeout false = codes "таймаут соединения"
format_soft_hint cat_conn_reset _ = codes "сброс соединения, возможна DPI-блокировка"
format_soft_hint cat_conn_refused _ = codes "соединение отклонено узлом"
format_soft_hint cat_tls_error _ = codes "ошибка TLS-рукопожатия"
format_soft_hint cat_dns_error _ = codes "ошибка DNS-резолва"
format_soft_hint cat_http_4xx _ = codes "целевой сервер отклонил запрос"
format_soft_hint cat_http_5xx _ = codes "целевой сервер недоступен"
format_soft_hint _ _ = codes "ошибка сети"

module _ (to_lower : Text → Text) where
  -- IsUDPProto
  unfoldable pub is_udp_proto : Text → Bool
  is_udp_proto proto =
      let p = to_lower (trim_space proto) in
      eqt p (codes "hysteria")
      || eqt p (codes "hysteria2")
      || eqt p (codes "tuic")
      || eqt p (codes "wireguard")
