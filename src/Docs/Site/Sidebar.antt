-- ===== src/Docs/Site/Sidebar.antt =====
-- docs/astro.config.mjs: the groups of the sidebar.
use xray_checker_tg_bot.Base.{codes, none, some, List, [], ◌∷◌}
use xray_checker_tg_bot.Docs.Site.{Group, slug, link, both}

abbrev pub introduction : Group
introduction = record {
  label = codes "Introduction";
  translations = both (codes "Введение") (1605 ∷ 1602 ∷ 1583 ∷ 1605 ∷ 1607 ∷ []);
  badge = none;
  items =
      (record {
        label = codes "Overview";
        translations = both (codes "Обзор") (1605 ∷ 1593 ∷ 1585 ∷ 1601 ∷ 1740 ∷ []);
        target = slug (codes "index");
        badge = none;
      }
        ∷ record {
          label = codes "Features";
          translations =
              both (codes "Возможности") (1575 ∷ 1605 ∷ 1705 ∷ 1575 ∷ 1606 ∷ 1575 ∷ 1578 ∷ []);
          target = slug (codes "intro/features");
          badge = none;
        }
        ∷ record {
          label = codes "Architecture";
          translations = both (codes "Архитектура") (1605 ∷ 1593 ∷ 1605 ∷ 1575 ∷ 1585 ∷ 1740 ∷ []);
          target = slug (codes "intro/architecture");
          badge = none;
        }
        ∷ record {
          label = codes "Quick Start";
          translations =
              both (codes "Быстрый старт")
                (1588 ∷ 1585 ∷ 1608 ∷ 1593 ∷ 32 ∷ 1587 ∷ 1585 ∷ 1740 ∷ 1593 ∷ []);
          target = slug (codes "intro/quick-start");
          badge = none;
        }
        ∷ []);
}

abbrev pub usage : Group
usage = record {
  label = codes "Usage";
  translations = both (codes "Использование") (1575 ∷ 1587 ∷ 1578 ∷ 1601 ∷ 1575 ∷ 1583 ∷ 1607 ∷ []);
  badge = none;
  items =
      (record {
        label = codes "CLI";
        translations =
            both (codes "CLI") (1582 ∷ 1591 ∷ 32 ∷ 1601 ∷ 1585 ∷ 1605 ∷ 1575 ∷ 1606 ∷ []);
        target = slug (codes "usage/cli");
        badge = none;
      }
        ∷ record {
          label = codes "Docker";
          translations = both (codes "Docker") (1583 ∷ 1575 ∷ 1705 ∷ 1585 ∷ []);
          target = slug (codes "usage/docker");
          badge = none;
        }
        ∷ record {
          label = codes "GitHub Actions";
          translations = both (codes "GitHub Actions") (codes "GitHub Actions");
          target = slug (codes "usage/github-actions");
          badge = none;
        }
        ∷ record {
          label = codes "API Reference";
          translations =
              both (codes "API Reference") (1605 ∷ 1585 ∷ 1580 ∷ 1593 ∷ 32 ∷ 65 ∷ 80 ∷ 73 ∷ []);
          target = slug (codes "usage/api-reference");
          badge = none;
        }
        ∷ record {
          label = codes "Troubleshooting";
          translations =
              both (codes "Устранение неполадок")
                (1593 ∷ 1740 ∷ 1576 ∷ 8204 ∷ 1740 ∷ 1575 ∷ 1576 ∷ 1740 ∷ []);
          target = slug (codes "usage/troubleshooting");
          badge = none;
        }
        ∷ []);
}

abbrev pub configuration : Group
configuration = record {
  label = codes "Configuration";
  translations =
      both (codes "Конфигурация") (1662 ∷ 1740 ∷ 1705 ∷ 1585 ∷ 1576 ∷ 1606 ∷ 1583 ∷ 1740 ∷ []);
  badge = none;
  items =
      (record {
        label = codes "Environment Variables";
        translations = both (codes "Переменные окружения") (
            1605 ∷ 1578 ∷ 1594 ∷ 1740 ∷ 1585 ∷ 1607 ∷ 1575 ∷ 1740 ∷ 32 ∷ 1605 ∷ 1581 ∷ 1740 ∷ 1591
            ∷ 1740 ∷ []);
        target = slug (codes "configuration/envs");
        badge = none;
      }
        ∷ record {
          label = codes "Subscription Format";
          translations =
              both (codes "Формат подписки")
                (1601 ∷ 1585 ∷ 1605 ∷ 1578 ∷ 32 ∷ 1575 ∷ 1588 ∷ 1578 ∷ 1585 ∷ 1575 ∷ 1705 ∷ []);
          target = slug (codes "configuration/subscription");
          badge = none;
        }
        ∷ record {
          label = codes "Check Methods";
          translations = both (codes "Методы проверки") (
              1585 ∷ 1608 ∷ 1588 ∷ 8204 ∷ 1607 ∷ 1575 ∷ 1740 ∷ 32 ∷ 1576 ∷ 1585 ∷ 1585 ∷ 1587 ∷ 1740
              ∷ []);
          target = slug (codes "configuration/check-methods");
          badge = none;
        }
        ∷ record {
          label = codes "Advanced Configuration";
          translations = both (codes "Расширенная конфигурация") (
              1662 ∷ 1740 ∷ 1705 ∷ 1585 ∷ 1576 ∷ 1606 ∷ 1583 ∷ 1740 ∷ 32 ∷ 1662 ∷ 1740 ∷ 1588 ∷ 1585
              ∷ 1601 ∷ 1578 ∷ 1607 ∷ []);
          target = slug (codes "configuration/advanced-conf");
          badge = none;
        }
        ∷ record {
          label = codes "Public Status Page";
          translations = both (codes "Публичная страница статуса") (
              1589 ∷ 1601 ∷ 1581 ∷ 1607 ∷ 32 ∷ 1608 ∷ 1590 ∷ 1593 ∷ 1740 ∷ 1578 ∷ 32 ∷ 1593 ∷ 1605
              ∷ 1608 ∷ 1605 ∷ 1740 ∷ []);
          target = slug (codes "configuration/status-page");
          badge = none;
        }
        ∷ record {
          label = codes "Web Customization";
          translations = both (codes "Кастомизация веб-интерфейса") (
              1587 ∷ 1601 ∷ 1575 ∷ 1585 ∷ 1588 ∷ 1740 ∷ 8204 ∷ 1587 ∷ 1575 ∷ 1586 ∷ 1740 ∷ 32 ∷ 1608
              ∷ 1576 ∷ []);
          target = slug (codes "configuration/web-customization");
          badge = some (codes "NEW", codes "success");
        }
        ∷ record {
          label = codes "Restricted Networks";
          translations = both (codes "Изолированные сети") (
              1588 ∷ 1576 ∷ 1705 ∷ 1607 ∷ 8204 ∷ 1607 ∷ 1575 ∷ 1740 ∷ 32 ∷ 1605 ∷ 1581 ∷ 1583 ∷ 1608
              ∷ 1583 ∷ 32 ∷ 1588 ∷ 1583 ∷ 1607 ∷ []);
          target = slug (codes "configuration/restricted-networks");
          badge = some (codes "NEW", codes "note");
        }
        ∷ []);
}

abbrev pub integrations : Group
integrations = record {
  label = codes "Integrations";
  translations = both (codes "Интеграции") (
      1740 ∷ 1705 ∷ 1662 ∷ 1575 ∷ 1585 ∷ 1670 ∷ 1607 ∷ 8204 ∷ 1587 ∷ 1575 ∷ 1586 ∷ 1740 ∷ 8204
      ∷ 1607 ∷ 1575 ∷ []);
  badge = none;
  items =
      (record {
        label = codes "Metrics";
        translations =
            both (codes "Метрики") (1605 ∷ 1578 ∷ 1585 ∷ 1740 ∷ 1705 ∷ 8204 ∷ 1607 ∷ 1575 ∷ []);
        target = slug (codes "integrations/metrics");
        badge = none;
      }
        ∷ record {
          label = codes "Prometheus Setup";
          translations = both (codes "Настройка Prometheus") (
              1585 ∷ 1575 ∷ 1607 ∷ 8204 ∷ 1575 ∷ 1606 ∷ 1583 ∷ 1575 ∷ 1586 ∷ 1740 ∷ 32 ∷ 80 ∷ 114
              ∷ 111 ∷ 109 ∷ 101 ∷ 116 ∷ 104 ∷ 101 ∷ 117 ∷ 115 ∷ []);
          target = slug (codes "integrations/prometheus");
          badge = none;
        }
        ∷ record {
          label = codes "Uptime Kuma";
          translations = both (codes "Uptime Kuma") (codes "Uptime Kuma");
          target = slug (codes "integrations/uptime-kuma");
          badge = none;
        }
        ∷ record {
          label = codes "Grafana Dashboards";
          translations = both (codes "Grafana Dashboard") (
              1583 ∷ 1575 ∷ 1588 ∷ 1576 ∷ 1608 ∷ 1585 ∷ 1583 ∷ 1607 ∷ 1575 ∷ 1740 ∷ 32 ∷ 71 ∷ 114
              ∷ 97 ∷ 102 ∷ 97 ∷ 110 ∷ 97 ∷ []);
          target = slug (codes "integrations/grafana");
          badge = some (codes "WIP", codes "caution");
        }
        ∷ record {
          label = codes "Alternatives";
          translations =
              both (codes "Альтернативы")
                (1580 ∷ 1575 ∷ 1740 ∷ 1711 ∷ 1586 ∷ 1740 ∷ 1606 ∷ 8204 ∷ 1607 ∷ 1575 ∷ []);
          target = slug (codes "integrations/alternatives");
          badge = none;
        }
        ∷ []);
}

abbrev pub badges : Group
badges = record {
  label = codes "Badges";
  translations = both (codes "Бейджи") (1606 ∷ 1588 ∷ 1575 ∷ 1606 ∷ 8204 ∷ 1607 ∷ 1575 ∷ []);
  badge = some (codes "NEW", codes "success");
  items =
      (record {
        label = codes "Overview";
        translations = both (codes "Обзор") (1605 ∷ 1593 ∷ 1585 ∷ 1601 ∷ 1740 ∷ []);
        target = slug (codes "badges/overview");
        badge = none;
      }
        ∷ record {
          label = codes "Playground";
          translations = both (codes "Конструктор") (1587 ∷ 1575 ∷ 1586 ∷ 1606 ∷ 1583 ∷ 1607 ∷ []);
          target = slug (codes "badges/playground");
          badge = none;
        }
        ∷ []);
}

abbrev pub contributing : Group
contributing = record {
  label = codes "Contributing";
  translations = both (codes "Участие в разработке") (1605 ∷ 1588 ∷ 1575 ∷ 1585 ∷ 1705 ∷ 1578 ∷ []);
  badge = none;
  items =
      (record {
        label = codes "Development Guide";
        translations = both (codes "Руководство для разработчиков") (
            1585 ∷ 1575 ∷ 1607 ∷ 1606 ∷ 1605 ∷ 1575 ∷ 1740 ∷ 32 ∷ 1578 ∷ 1608 ∷ 1587 ∷ 1593 ∷ 1607
            ∷ []);
        target = link (codes "/contributing/guide");
        badge = none;
      }
        ∷ []);
}

abbrev pub other_software : Group
other_software = record {
  label = codes "Other Software";
  translations =
      (
        codes "fa",
        1606 ∷ 1585 ∷ 1605 ∷ 8204 ∷ 1575 ∷ 1601 ∷ 1586 ∷ 1575 ∷ 1585 ∷ 1607 ∷ 1575 ∷ 1740 ∷ 32
            ∷ 1583 ∷ 1740 ∷ 1711 ∷ 1585 ∷ [],
      )
      ∷ [];
  badge = none;
  items =
      (record {
        label = codes "Xray Torrent Blocker";
        translations = [];
        target = link (codes "https://github.com/kutovoys/xray-torrent-blocker");
        badge = none;
      }
        ∷ record {
          label = codes "Speedtest Exporter";
          translations = [];
          target = link (codes "https://github.com/kutovoys/speedtest-exporter");
          badge = none;
        }
        ∷ record {
          label = codes "Marzban Exporter";
          translations = [];
          target = link (codes "https://github.com/kutovoys/marzban-exporter");
          badge = none;
        }
        ∷ []);
}

abbrev pub sidebar : List Group
sidebar =
    introduction ∷ usage ∷ configuration ∷ integrations ∷ badges ∷ contributing ∷ other_software
    ∷ []
