-- ===== src/Crawler.antt =====
-- legacy/packages/crawler: the rules of robots.txt, the parser of CSV the rate limiter and the rows of customers' voices.
pub mod Robots
pub mod Csv
pub mod RateLimiter
pub mod Voc
